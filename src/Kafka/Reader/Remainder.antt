-- ===== src/Kafka/Reader/Remainder.antt =====
-- Numbers that are split between two packets, read by `__read_with_remainder`.
use erda_agent.Base.{
  ℕ, ◌+◌, ◌^◌, ◌≤◌, ◌<◌, ◌≡◌, ◌↔◌, ◌⊎◌, Bool, List, [], ◌∷◌, ◌++◌, true, false, be, length, arith,
  slice,
}
use erda_agent.Packet.{Skb}
use erda_agent.Packet.Bytes.{Reads}
use erda_agent.Kafka.Types.{ResponseContext, ret_done}
use erda_agent.Kafka.Reader.{read_with_remainder}

-- A four-byte number whose first bytes, the 1 to 3 of `head`, came with the previous packet, their
-- number saved as the remainder, and whose other bytes begin this packet, which holds at least
-- four bytes more from here. The number is read, the remainder is cleared and the offset stands
-- behind the number's last byte; but the value is the number that was sent exactly when the bytes
-- of `head` are all zero.
pub read_with_remainder-split_iff :
    (response : ResponseContext) (skb : Skb) (off data_end : ℕ) (head tail after : List ℕ)
    → skb.load_bytes off (0 ∷ 0 ∷ 0 ∷ 0 ∷ []) ≡ (true, tail ++ after)
    → length head + length tail ≡ 4
    → response.remainder ≡ length head
    → 0 < length head
    → 0 < length tail
    → off + 4 ≤ data_end
    → data_end < 2 ^ 32
    → let r = read_with_remainder response skb off data_end true in
      (r.result ≡ ret_done)
      × (r.response ≡ record response { remainder = 0 })
      × (r.offset ≡ off + length tail)
      × ((r.value ≡ be (head ++ tail)) ↔ (be head ≡ 0))
unfolding read_with_remainder
read_with_remainder-split_iff response skb off data_end (a ∷ []) (b ∷ c ∷ d ∷ []) after load size
      left h t room small =
    (ground arith, ground arith, ground arith, ((λ e. ground arith), (λ e. ground arith)))
read_with_remainder-split_iff response skb off data_end (a ∷ b ∷ []) (c ∷ d ∷ []) after load size
      left h t room small =
    (ground arith, ground arith, ground arith, ((λ e. ground arith), (λ e. ground arith)))
read_with_remainder-split_iff response skb off data_end (a ∷ b ∷ c ∷ []) (d ∷ []) after load size
      left h t room small =
    (ground arith, ground arith, ground arith, ((λ e. ground arith), (λ e. ground arith)))
read_with_remainder-split_iff response skb off data_end head tail after load size left h t room
      small =
    absurd (omega arith)

-- A four-byte number that lies in the packet from the offset on is read whole, if no remainder was
-- saved or this is not the first read: the value is that of its bytes, most significant first, the
-- offset stands behind it, and the context is as it was.
pub read_with_remainder-whole :
    (response : ResponseContext) (skb : Skb) (bytes : List ℕ) (off data_end : ℕ) (first : Bool)
    → Reads skb bytes
    → (response.remainder ≡ 0) ⊎ (first ≡ false)
    → off + 4 ≤ data_end
    → data_end ≤ length bytes
    → length bytes < 2 ^ 32
    → read_with_remainder response skb off data_end first ≡ record {
      result = ret_done;
      response = response;
      offset = off + 4;
      value = be (slice off 4 bytes);
    }
unfolding read_with_remainder
read_with_remainder-whole response skb bytes off data_end first reads none_left room within small =
    let load = reads.in_range off (0 ∷ 0 ∷ 0 ∷ 0 ∷ []) (omega arith) in ground arith
