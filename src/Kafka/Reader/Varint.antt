-- ===== src/Kafka/Reader/Varint.antt =====
-- Variable-length numbers that are split between two packets, read by `read_varint`.
pub mod Digits
pub mod Rounds
use Prim.Native.Nat.add
use mathlib.Core.Path.{ap₂}
use erda_agent.Base.{
  ℕ, zero, suc, ◌+◌, ◌-◌, ◌*◌, ◌%◌, ◌^◌, ◌≤◌, ◌<◌, ◌≡◌, ◌≢◌, ap, ◌∙◌, List, [], ◌∷◌, ◌++◌, Bool,
  true, false, length, arith, drop, u32, sub64, length-drop,
}
use erda_agent.Base.Bits.{bit_or_shifted}
use erda_agent.Packet.{Skb}
use erda_agent.Packet.Bytes.{Reads}
use erda_agent.Kafka.Types.{ResponseContext, ret_eop, ret_done, ret_err}
use erda_agent.Kafka.Reader.{is_msb_set, byte_at, add_digit, varint_eop, varint_loop, read_varint}
use erda_agent.Kafka.Reader.Varint.Digits.{
  digits_value, Continues, IsVarint, byte_at_lem, drop_next, add_digit_lem, digits_step,
  digits_bound, digits_small, digits-append, IsVarint-length,
}
use erda_agent.Kafka.Reader.Varint.Rounds.{loop_skips, loop_cut, loop_ends}

loop_no_error :
    (rounds i max_bytes startpos : ℕ) (response : ResponseContext) (skb : Skb)
    (data_end offset value shift_amount byte : ℕ)
    → i + rounds ≡ max_bytes
    → 0 < max_bytes
    → (varint_loop rounds i max_bytes startpos response skb data_end offset value shift_amount
        byte).result
      ≢ ret_err
unfolding varint_loop
loop_no_error zero i max_bytes startpos response skb data_end offset value shift_amount byte e h =
    ground arith
loop_no_error (suc rounds) i max_bytes startpos response skb data_end offset value shift_amount byte
      e h =
    ground (
      arith,
      loop_no_error rounds (i + 1) max_bytes startpos response skb data_end offset value
          shift_amount byte,
      loop_no_error rounds (i + 1) max_bytes startpos response skb data_end (u32 (offset + 1))
          (add_digit value (byte_at skb offset byte) shift_amount) (shift_amount + 7)
          (byte_at skb offset byte),
    )

-- Whatever the packet holds, `read_varint` does not return `RET_ERR`: a number whose last admitted
-- byte has the continuation bit is accepted, though the test behind the loop is to refuse it.
pub read_varint-accepts_overlong :
    (response : ResponseContext) (skb : Skb) (offset data_end : ℕ) (first : Bool) (max_bytes : ℕ)
    → 0 < max_bytes
    → (read_varint response skb offset data_end first max_bytes).result ≢ ret_err
unfolding read_varint
read_varint-accepts_overlong response skb offset data_end true max_bytes h =
    loop_no_error max_bytes 0 max_bytes response.varint_position _ skb data_end offset
      response.varint_value (response.varint_position * 7) 0 (omega arith) h
read_varint-accepts_overlong response skb offset data_end false max_bytes h =
    loop_no_error max_bytes 0 max_bytes 0 response skb data_end offset 0 0 0 (omega arith) h

-- The context between the two packets.
abbrev waiting : ResponseContext → ℕ → ℕ → ResponseContext
waiting response n v = record response {
  varint_position = n;
  varint_value = v;
  carry_over_offset = 0;
}

read_cut :
    (skb : Skb) (bytes : List ℕ) (reads : Reads skb bytes) (response : ResponseContext)
    (xs rest : List ℕ) (off data_end max_bytes : ℕ) (first : Bool)
    → response.varint_position ≡ 0
    → response.varint_value ≡ 0
    → drop off bytes ≡ xs ++ rest
    → off + length xs ≡ data_end
    → Continues xs
    → length xs < max_bytes
    → max_bytes ≤ 4
    → data_end < 2 ^ 32
    → read_varint response skb off data_end first max_bytes ≡ record {
      result = ret_eop;
      response = waiting response (length xs) (digits_value xs);
      offset = data_end;
      value = 0;
    }
unfolding read_varint varint_eop
read_cut skb bytes reads response xs rest off data_end max_bytes false p q d e c l m s =
    loop_cut skb bytes reads max_bytes 0 data_end m s xs rest max_bytes 0 response off 0 0 d e c l
      (omega arith) (omega arith) (omega arith)
    ∙ ground (arith, digits_small xs)
read_cut skb bytes reads response xs rest off data_end max_bytes true p q d e c l m s =
    rw (p, q)
      (loop_cut skb bytes reads max_bytes 0 data_end m s xs rest max_bytes 0 _ off 0 0 d e c l
          (omega arith) (omega arith) (omega arith)
        ∙ ground (arith, digits_small xs))

read_resumed :
    (skb : Skb) (bytes : List ℕ) (reads : Reads skb bytes) (response : ResponseContext) (n v : ℕ)
    (ys rest : List ℕ) (off data_end max_bytes : ℕ)
    → drop off bytes ≡ ys ++ rest
    → off + length ys ≤ data_end
    → IsVarint ys
    → n + length ys ≤ max_bytes
    → max_bytes ≤ 4
    → data_end < 2 ^ 32
    → v < 2 ^ (7 * n)
    → read_varint (waiting response n v) skb off data_end true max_bytes ≡ record {
      result = ret_done;
      response = waiting response 0 0;
      offset = off + length ys;
      value = sub64 (v + digits_value ys * 2 ^ (7 * n)) 1;
    }
unfolding read_varint
read_resumed skb bytes reads response n v ys rest off data_end max_bytes d e c l m s b =
    let seven : n * 7 ≡ 7 * n = omega arith in
    rw seven (
      loop_skips skb bytes reads max_bytes n data_end m s n (max_bytes - n) max_bytes 0
        (waiting response 0 0) off v (7 * n) 0 (omega arith) (omega arith)
      ∙ loop_ends skb bytes reads max_bytes n data_end m s ys rest (max_bytes - n) n
          (waiting response 0 0) off v 0 d e c (omega arith) (omega arith) (omega arith) b)

-- A number of at most `max_bytes` bytes (4 at most), that is split anywhere: this packet ends with
-- `xs`, and the next one goes on with `ys`; no number was being read before. The first call asks
-- for more data, and the second returns the number less 1 (all its bits, as if the bytes had come
-- in one packet), with the offset behind it; then the context is as it was, with no offset carried
-- over.
pub read_varint-resumes :
    (skb1 skb2 : Skb) (bytes1 bytes2 : List ℕ) (response : ResponseContext)
    (xs ys rest1 rest2 : List ℕ) (off1 off2 end1 end2 max_bytes : ℕ) (first : Bool)
    → Reads skb1 bytes1
    → Reads skb2 bytes2
    → response.varint_position ≡ 0
    → response.varint_value ≡ 0
    → drop off1 bytes1 ≡ xs ++ rest1
    → off1 + length xs ≡ end1
    → Continues xs
    → drop off2 bytes2 ≡ ys ++ rest2
    → off2 + length ys ≤ end2
    → IsVarint ys
    → length xs + length ys ≤ max_bytes
    → max_bytes ≤ 4
    → end1 < 2 ^ 32
    → end2 < 2 ^ 32
    → let r1 = read_varint response skb1 off1 end1 first max_bytes in
      (r1.result ≡ ret_eop)
      × (read_varint r1.response skb2 off2 end2 true max_bytes ≡ record {
        result = ret_done;
        response = record response { carry_over_offset = 0 };
        offset = off2 + length ys;
        value = sub64 (digits_value (xs ++ ys)) 1;
      })
read_varint-resumes skb1 skb2 bytes1 bytes2 response xs ys rest1 rest2 off1 off2 end1 end2 max_bytes
      first reads1 reads2 p q d1 e1 c1 d2 e2 c2 l m s1 s2 =
    let some_left = IsVarint-length ys c2 in
    let cut =
      read_cut skb1 bytes1 reads1 response xs rest1 off1 end1 max_bytes first p q d1 e1 c1
        (omega arith) m s1 in
    let resumed =
      read_resumed skb2 bytes2 reads2 response (length xs) (digits_value xs) ys rest2 off2 end2
        max_bytes d2 e2 c2 l m s2 (digits_bound xs (omega arith)) in
    (
      ap (λ r. r.result) cut,
      ap (λ r. read_varint r.response skb2 off2 end2 true max_bytes) cut
          ∙ resumed
          ∙ ground (arith, digits-append xs ys (omega arith)),
    )
