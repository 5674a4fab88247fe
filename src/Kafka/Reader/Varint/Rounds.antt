-- ===== src/Kafka/Reader/Varint/Rounds.antt =====
-- The loop of `read_varint` on the bytes of a number: where it is cut, and where it ends.
use mathlib.Core.Path.{ap₂}
use erda_agent.Base.{
  ℕ, zero, suc, ◌+◌, ◌*◌, ◌%◌, ◌^◌, ◌≤◌, ◌<◌, ◌≡◌, ◌∙◌, List, [], ◌∷◌, ◌++◌, true, length, arith,
  drop, u32, sub64,
}
use erda_agent.Packet.{Skb}
use erda_agent.Packet.Bytes.{Reads}
use erda_agent.Kafka.Types.{ResponseContext, ret_done}
use erda_agent.Kafka.Reader.{is_msb_set, varint_eop, varint_loop}
use erda_agent.Kafka.Reader.Varint.Digits.{
  digits_value, Continues, IsVarint, byte_at_lem, drop_next, add_digit_lem, digits_step,
}

module _ (skb : Skb) (bytes : List ℕ) (reads : Reads skb bytes) (max_bytes startpos data_end : ℕ)
    (few : max_bytes ≤ 4) (small : data_end < 2 ^ 32) where
  loop_skips_one :
      (k r rounds i : ℕ) (response : ResponseContext) (offset value shift_amount byte : ℕ)
      → i + suc k ≡ startpos
      → varint_loop rounds
          (i + 1)
          max_bytes
          startpos
          response
          skb
          data_end
          offset
          value
          shift_amount
          byte
        ≡ varint_loop r startpos max_bytes startpos response skb data_end offset value shift_amount
            byte
      → varint_loop
          (suc rounds)
          i
          max_bytes
          startpos
          response
          skb
          data_end
          offset
          value
          shift_amount
          byte
        ≡ varint_loop r startpos max_bytes startpos response skb data_end offset value shift_amount
            byte
  unfolding varint_loop
  loop_skips_one k r rounds i response offset value shift_amount byte f ih = ground (arith, ih)

  -- The rounds that only count up to `startpos`.
  pub loop_skips :
      (k r rounds i : ℕ) (response : ResponseContext) (offset value shift_amount byte : ℕ)
      → rounds ≡ k + r
      → i + k ≡ startpos
      → varint_loop rounds i max_bytes startpos response skb data_end offset value shift_amount byte
        ≡ varint_loop r startpos max_bytes startpos response skb data_end offset value shift_amount
            byte
  loop_skips zero r rounds i response offset value shift_amount byte e f =
      let e' : rounds ≡ r = omega arith in let f' : i ≡ startpos = omega arith in rw (e', f')
  loop_skips (suc k) r zero i response offset value shift_amount byte e f = absurd (omega arith)
  loop_skips (suc k) r (suc rounds) i response offset value shift_amount byte e f =
      loop_skips_one k r rounds i response offset value shift_amount byte f (
        loop_skips k r rounds (i + 1) response offset value shift_amount byte (omega arith)
          (omega arith))

  -- A round that reads a byte with the continuation bit.
  loop_step :
      (b : ℕ) (rest : List ℕ) (rounds i : ℕ) (response : ResponseContext) (offset value byte : ℕ)
      → drop offset bytes ≡ b ∷ rest
      → offset < data_end
      → is_msb_set b ≡ true
      → i < 4
      → startpos ≤ i
      → value < 2 ^ (7 * i)
      → varint_loop
          (suc rounds)
          i
          max_bytes
          startpos
          response
          skb
          data_end
          offset
          value
          (7 * i)
          byte
        ≡ varint_loop rounds
            (i + 1)
            max_bytes
            startpos
            response
            skb
            data_end
            (offset + 1)
            (value + b % 128 * 2 ^ (7 * i))
            (7 * (i + 1))
            b
  unfolding varint_loop
  loop_step b rest rounds i response offset value byte d e c l s v =
      let here = byte_at_lem skb bytes offset byte b rest reads d in
      let wrap : u32 (offset + 1) ≡ offset + 1 = omega arith in
      let shift : 7 * i + 7 ≡ 7 * (i + 1) = omega arith in
      let digit = (add_digit_lem i value b l v).0 in ground arith

  pub loop_cut :
      (xs rest : List ℕ) (rounds i : ℕ) (response : ResponseContext) (offset value byte : ℕ)
      → drop offset bytes ≡ xs ++ rest
      → offset + length xs ≡ data_end
      → Continues xs
      → length xs < rounds
      → i + rounds ≡ max_bytes
      → startpos ≤ i
      → value < 2 ^ (7 * i)
      → varint_loop rounds i max_bytes startpos response skb data_end offset value (7 * i) byte
        ≡ varint_eop
            (i + length xs)
            response
            data_end
            data_end
            (value + digits_value xs * 2 ^ (7 * i))
  unfolding varint_loop
  loop_cut [] rest zero i response offset value byte d e c l m s v = absurd (omega arith)
  loop_cut [] rest (suc rounds) i response offset value byte d e c l m s v =
      let same : value + 0 * 2 ^ (7 * i) ≡ value = omega arith in
      let pos : i + 0 ≡ i = omega arith in ground arith
  loop_cut (b ∷ xs) rest zero i response offset value byte d e c l m s v = absurd (omega arith)
  loop_cut (b ∷ xs) rest (suc rounds) i response offset value byte d e c l m s v =
      let pos : i + 1 + length xs ≡ i + suc (length xs) = omega arith in
      loop_step b (xs ++ rest) rounds i response offset value byte d (omega arith) c.1 (omega arith)
        s v
      ∙ loop_cut xs rest rounds (i + 1) response (offset + 1) (value + b % 128 * 2 ^ (7 * i)) b
          (drop_next offset b bytes (xs ++ rest) d) (omega arith) c.2 (omega arith) (omega arith)
          (omega arith) (add_digit_lem i value b (omega arith) v).1
      ∙ ap₂ (λ p v'. varint_eop p response data_end data_end v') pos
          (digits_step i value b (digits_value xs) (omega arith))

  pub loop_ends :
      (ys rest : List ℕ) (rounds i : ℕ) (response : ResponseContext) (offset value byte : ℕ)
      → drop offset bytes ≡ ys ++ rest
      → offset + length ys ≤ data_end
      → IsVarint ys
      → length ys ≤ rounds
      → i + rounds ≡ max_bytes
      → startpos ≤ i
      → value < 2 ^ (7 * i)
      → varint_loop rounds i max_bytes startpos response skb data_end offset value (7 * i) byte
        ≡ record {
          result = ret_done;
          response = response;
          offset = offset + length ys;
          value = sub64 (value + digits_value ys * 2 ^ (7 * i)) 1;
        }
  unfolding varint_loop
  loop_ends [] rest rounds i response offset value byte d e c l m s v = absurd c
  loop_ends (b ∷ ys) rest zero i response offset value byte d e c l m s v = absurd (omega arith)
  loop_ends (b ∷ []) rest (suc rounds) i response offset value byte d e c l m s v =
      let here = byte_at_lem skb bytes offset byte b rest reads d in
      let wrap : u32 (offset + 1) ≡ offset + 1 = omega arith in
      let digit = (add_digit_lem i value b (omega arith) v).0 in
      let same : b % 128 + 128 * 0 ≡ b % 128 = omega arith in ground arith
  loop_ends (b ∷ y ∷ ys) rest (suc rounds) i response offset value byte d e c l m s v =
      let pos : offset + 1 + suc (length ys) ≡ offset + suc (suc (length ys)) = omega arith in
      loop_step b (y ∷ ys ++ rest) rounds i response offset value byte d (omega arith) c.1
        (omega arith) s v
      ∙ loop_ends (y ∷ ys) rest rounds (i + 1) response (offset + 1) (value + b % 128 * 2 ^ (7 * i))
          b (drop_next offset b bytes (y ∷ ys ++ rest) d) (omega arith) c.2 (omega arith)
          (omega arith) (omega arith) (add_digit_lem i value b (omega arith) v).1
      ∙ ap₂
          (λ p v'. record {
            result = ret_done;
            response = response;
            offset = p;
            value = sub64 v' 1;
          })
          pos (digits_step i value b (digits_value (y ∷ ys)) (omega arith))
