-- ===== src/Kafka/Reader/Varint/Digits.antt =====
-- The digits of a variable-length number, and the bytes that stand for them.
use Prim.Native.Nat.add
use erda_agent.Base.{
  ℕ, zero, suc, ◌+◌, ◌*◌, ◌%◌, ◌^◌, ◌<◌, ◌≡◌, ap, List, [], ◌∷◌, ◌++◌, true, false, length, arith,
  drop, length-drop,
}
use erda_agent.Base.Bits.{bit_or_shifted}
use erda_agent.Packet.{Skb}
use erda_agent.Packet.Bytes.{Reads}
use erda_agent.Kafka.Reader.{is_msb_set, byte_at, add_digit}

-- The number that groups of seven bits stand for, lowest first.
abbrev pub digits_value : List ℕ → ℕ
digits_value [] = 0
digits_value (b ∷ bs) = b % 128 + 128 * digits_value bs

-- Every byte has the continuation bit; every byte but the last one has it.
abbrev pub Continues : List ℕ → Type 0
Continues [] = Unit {0}
Continues (b ∷ bs) = (b < 256) × (is_msb_set b ≡ true) × Continues bs

abbrev pub IsVarint : List ℕ → Type 0
IsVarint [] = ⊥
IsVarint (b ∷ []) = (b < 256) × (is_msb_set b ≡ false)
IsVarint (b ∷ c ∷ bs) = (b < 256) × (is_msb_set b ≡ true) × IsVarint (c ∷ bs)

-- The byte at an offset, where the packet's bytes from there on are known.
pub byte_at_lem :
    (skb : Skb) (bytes : List ℕ) (offset old b : ℕ) (rest : List ℕ)
    → Reads skb bytes
    → drop offset bytes ≡ b ∷ rest
    → byte_at skb offset old ≡ b
byte_at_lem skb bytes offset old b rest reads e =
    let some_left = ap length e in
    rw (reads.in_range offset (old ∷ []) (omega (arith, length-drop offset bytes)), e)

pub drop_next :
    (offset b : ℕ) (bytes rest : List ℕ)
    → drop offset bytes ≡ b ∷ rest
    → drop (offset + 1) bytes ≡ rest
drop_next zero b [] rest e = ground arith
drop_next zero b (x ∷ bytes) rest e = ground arith
drop_next (suc offset) b [] rest e = ground arith
drop_next (suc offset) b (x ∷ bytes) rest e = rw add.suc (drop_next offset b bytes rest e)

pub add_digit_lem :
    (i value byte : ℕ)
    → i < 4
    → value < 2 ^ (7 * i)
    → (add_digit value byte (7 * i) ≡ value + byte % 128 * 2 ^ (7 * i))
      × (value + byte % 128 * 2 ^ (7 * i) < 2 ^ (7 * (i + 1)))
add_digit_lem zero value byte h k = omega (arith, bit_or_shifted 0 value (byte % 128) k)
add_digit_lem (suc zero) value byte h k = omega (arith, bit_or_shifted 7 value (byte % 128) k)
add_digit_lem (suc (suc zero)) value byte h k =
    omega (arith, bit_or_shifted 14 value (byte % 128) k)
add_digit_lem (suc (suc (suc zero))) value byte h k =
    omega (arith, bit_or_shifted 21 value (byte % 128) k)
add_digit_lem (suc (suc (suc (suc i)))) value byte h k = absurd (omega arith)

-- One more digit, and the digits behind it.
pub digits_step :
    (i value b d : ℕ)
    → i < 4
    → value + b % 128 * 2 ^ (7 * i) + d * 2 ^ (7 * (i + 1))
      ≡ value + (b % 128 + 128 * d) * 2 ^ (7 * i)
digits_step zero value b d h = omega arith
digits_step (suc zero) value b d h = omega arith
digits_step (suc (suc zero)) value b d h = omega arith
digits_step (suc (suc (suc zero))) value b d h = omega arith
digits_step (suc (suc (suc (suc i)))) value b d h = absurd (omega arith)

pub digits_bound : (xs : List ℕ) → length xs < 4 → digits_value xs < 2 ^ (7 * length xs)
digits_bound [] h = omega arith
digits_bound (a ∷ []) h = omega arith
digits_bound (a ∷ b ∷ []) h = omega arith
digits_bound (a ∷ b ∷ c ∷ []) h = omega arith
digits_bound (a ∷ b ∷ c ∷ d ∷ xs) h = absurd (omega arith)

pub digits_small : (xs : List ℕ) → length xs < 4 → digits_value xs < 2 ^ 21
digits_small [] h = omega arith
digits_small (a ∷ []) h = omega arith
digits_small (a ∷ b ∷ []) h = omega arith
digits_small (a ∷ b ∷ c ∷ []) h = omega arith
digits_small (a ∷ b ∷ c ∷ d ∷ xs) h = absurd (omega arith)

pub digits-append :
    (xs ys : List ℕ)
    → length xs < 4
    → digits_value (xs ++ ys) ≡ digits_value xs + digits_value ys * 2 ^ (7 * length xs)
digits-append [] ys h = omega arith
digits-append (a ∷ []) ys h = omega arith
digits-append (a ∷ b ∷ []) ys h = omega arith
digits-append (a ∷ b ∷ c ∷ []) ys h = omega arith
digits-append (a ∷ b ∷ c ∷ d ∷ xs) ys h = absurd (omega arith)

pub IsVarint-length : (ys : List ℕ) → IsVarint ys → 0 < length ys
IsVarint-length [] c = absurd c
IsVarint-length (y ∷ ys) c = omega arith
