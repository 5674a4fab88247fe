-- ===== src/Kafka/Reader/Keeps.antt =====
-- What the readers of the response parser leave alone in the context.
use erda_agent.Base.{ℕ, zero, suc, ◌+◌, ◌*◌, ◌≡◌, Bool, true, false, u32, arith}
use erda_agent.Packet.{Skb}
use erda_agent.Kafka.Types.{ResponseContext}
use erda_agent.Kafka.Reader.{
  Reading, varint_loop, byte_at, add_digit, read_varint, read_varint_or_s16, read_varint_or_s32,
  skip_tagged_fields, read_with_remainder_s16, read_with_remainder,
}

-- Reading a number or tagged fields leaves the number of entries, the sequence number that is
-- expected, and the transaction.
unfoldable pub Keeps : ResponseContext → Reading → Type 0
Keeps r s =
    (s.response.record_batches_arrays_count ≡ r.record_batches_arrays_count)
    × (s.response.expected_tcp_seq ≡ r.expected_tcp_seq)
    × (s.response.transaction ≡ r.transaction)

pub tagged_fields-Keeps :
    (r : ResponseContext) (skb : Skb) (offset data_end : ℕ) (verify : Bool)
    → Keeps r (skip_tagged_fields r skb offset data_end verify)
unfolding skip_tagged_fields Keeps
tagged_fields-Keeps r skb offset data_end verify = ground arith

varint_loop-Keeps :
    (rounds i max_bytes startpos : ℕ) (r : ResponseContext) (skb : Skb)
    (data_end offset value shift_amount byte : ℕ)
    → Keeps r
        (varint_loop rounds i max_bytes startpos r skb data_end offset value shift_amount byte)
unfolding varint_loop Keeps
varint_loop-Keeps zero i max_bytes startpos r skb data_end offset value shift_amount byte =
    ground arith
varint_loop-Keeps (suc rounds) i max_bytes startpos r skb data_end offset value shift_amount byte =
    ground (
      arith,
      varint_loop-Keeps rounds (i + 1) max_bytes startpos r skb data_end offset value shift_amount
          byte,
      varint_loop-Keeps rounds (i + 1) max_bytes startpos r skb data_end (u32 (offset + 1))
          (add_digit value (byte_at skb offset byte) shift_amount) (shift_amount + 7)
          (byte_at skb offset byte),
    )

varint-Keeps :
    (r : ResponseContext) (skb : Skb) (offset data_end : ℕ) (first : Bool) (max_bytes : ℕ)
    → Keeps r (read_varint r skb offset data_end first max_bytes)
unfolding read_varint Keeps
varint-Keeps r skb offset data_end true max_bytes =
    varint_loop-Keeps max_bytes 0 max_bytes r.varint_position
      (record r { varint_value = 0; varint_position = 0 }) skb data_end offset r.varint_value
      (r.varint_position * 7) 0
varint-Keeps r skb offset data_end false max_bytes =
    varint_loop-Keeps max_bytes 0 max_bytes 0 r skb data_end offset 0 0 0

pub s16-Keeps :
    (flexible : Bool) (r : ResponseContext) (skb : Skb) (offset data_end : ℕ) (first : Bool)
    (max_bytes : ℕ)
    → Keeps r (read_varint_or_s16 flexible r skb offset data_end first max_bytes)
unfolding read_varint_or_s16 read_with_remainder_s16 Keeps
s16-Keeps flexible r skb offset data_end first max_bytes =
    ground (arith, varint-Keeps r skb offset data_end first max_bytes)

pub s32-Keeps :
    (flexible : Bool) (r : ResponseContext) (skb : Skb) (offset data_end : ℕ) (first : Bool)
    (max_bytes : ℕ)
    → Keeps r (read_varint_or_s32 flexible r skb offset data_end first max_bytes)
unfolding read_varint_or_s32 read_with_remainder Keeps
s32-Keeps flexible r skb offset data_end first max_bytes =
    ground (arith, varint-Keeps r skb offset data_end first max_bytes)
