-- ===== src/Http/Status.antt =====
-- The status code of a response, against its decimal reading.
use erda_agent.Base.{
  ℕ, ◌+◌, ◌-◌, ◌*◌, ◌≤◌, ◌≡◌, List, Option, none, some, ◌&&◌, leb, if◌then◌else◌, get_or, arith,
}
use erda_agent.Http.{char_to_u8, read_status_code}

-- The value of a decimal digit.
unfoldable pub digit_value : ℕ → Option ℕ
digit_value c = if leb b'0' c && leb c b'9' then some (c - b'0') else none

digit-char_to_u8 :
    (c : ℕ)
    → ((v : ℕ) → digit_value c ≡ some v → (char_to_u8 c ≡ v) × (v ≤ 9))
      × (digit_value c ≡ none → char_to_u8 c ≡ 255)
unfolding digit_value char_to_u8
digit-char_to_u8 c = (λ v e. ground (arith, e), λ e. ground (arith, e))

-- The three digits behind `HTTP/x.y `, most significant first.
unfoldable pub decimal_status : List ℕ → Option ℕ
unfolding digit_value
decimal_status p = elim (digit_value (get_or p 9 0)) [
  | none ↦ none
  | some a ↦ elim (digit_value (get_or p 10 0)) [
    | none ↦ none
    | some b ↦ elim (digit_value (get_or p 11 0)) [
      | none ↦ none
      | some c ↦ some (a * 100 + b * 10 + c)
    ]
  ]
]

-- Three decimal digits are read as the number that they stand for; where one of them is no digit,
-- the mark 255 of `char_to_u8` goes into the sum, and the result is at least 255.
pub read_status_code-eq-decimal :
    (payload : List ℕ)
    → ((v : ℕ) → decimal_status payload ≡ some v → read_status_code payload ≡ v)
      × (decimal_status payload ≡ none → 255 ≤ read_status_code payload)
unfolding read_status_code decimal_status
read_status_code-eq-decimal payload =
    let a = digit-char_to_u8 (get_or payload 9 0) in
    let b = digit-char_to_u8 (get_or payload 10 0) in
    let c = digit-char_to_u8 (get_or payload 11 0) in
    (λ v e. ground (arith, e), λ e. ground (arith, e))
