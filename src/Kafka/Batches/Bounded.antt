-- ===== src/Kafka/Batches/Bounded.antt =====
-- The bound on the records that the batches loop counts: the bytes of the blocks that are left.
use erda_agent.Base.{
  ℕ, zero, suc, ◌+◌, ◌-◌, ◌≤◌, ◌<◌, ◌≡◌, refl, ap, ◌⊎◌, inl, inr, List, [], ◌∷◌, Bool, true, false,
  get_or, take, drop, arith,
}
use erda_agent.Packet.{Skb}
use erda_agent.Kafka.Types.{
  ResponseContext, ResponseState, ParseResult, ret_eop, ret_done, ret_err, ret_loop_end,
  BatchesArray, max_record_batches_arrays, record_batch_magic, record_batch_records_count,
  record_batch_end,
}
use erda_agent.Kafka.Reader.{read_with_remainder}
use erda_agent.Kafka.Batches.{Flow, returns, continues, Call, zero_array}

pub total : List BatchesArray → ℕ
total [] = 0
total (a ∷ rest) = a.num_bytes + total rest

-- The bytes of the arrays behind the current one.
unfoldable pub bytes_after : List BatchesArray → ℕ → ℕ → ℕ
unfolding total
bytes_after arrays idx count = total (drop (suc idx) (take count arrays))

pub total-drop :
    (i : ℕ) (xs : List BatchesArray)
    → total (drop i xs) ≡ (get_or xs i zero_array).num_bytes + total (drop (suc i) xs)
unfolding total
total-drop zero [] = refl
total-drop zero (a ∷ rest) = refl
total-drop (suc i) [] = refl
total-drop (suc i) (a ∷ rest) = total-drop i rest

pub get_or-take :
    (n i : ℕ) (xs : List BatchesArray)
    → i < n
    → get_or (take n xs) i zero_array ≡ get_or xs i zero_array
get_or-take zero i xs h = absurd (omega arith)
get_or-take (suc n) i [] h = refl
get_or-take (suc n) zero (a ∷ rest) h = refl
get_or-take (suc n) (suc i) (a ∷ rest) h = get_or-take n i rest (omega arith)

-- A batch whose length has been read and that has not been left.
abbrev pub is_inside : ResponseState → Bool
is_inside record_batch_magic = true
is_inside record_batch_records_count = true
is_inside record_batch_end = true
is_inside _ = false

-- The bytes of the current block that may still hold records.
abbrev pub pending : ResponseState → ℕ → ℕ → ℕ
pending record_batch_end num len = num - (len + 12)
pending _ num len = num

pub record Bounded (c : Call) (bound : ℕ) (r : ResponseContext) : Type 0 where
  pub counted :
      r.transaction.records_count
        + pending r.state r.record_batches_num_bytes r.record_batch_length
        + bytes_after c.arrays r.record_batches_arrays_idx r.record_batches_arrays_count
      ≤ bound
  pub current : r.record_batches_arrays_idx < max_record_batches_arrays
  pub sized :
      (is_inside r.state ≡ false)
      ⊎ ((0 < r.record_batch_length) × (r.record_batch_length + 12 ≤ r.record_batches_num_bytes))

abbrev pub context : Flow → ResponseContext
context (returns result r) = r
context (continues offset r) = r

abbrev pub is_error : Flow → Bool
is_error (returns ret_err r) = true
is_error _ = false

abbrev pub is_done : Flow → Bool
is_done (returns ret_done r) = true
is_done _ = false

-- After an error the context is thrown away, and at the end only the count is read.
abbrev pub KeepsBound : Call → ℕ → Flow → Type 0
KeepsBound c bound f =
    (is_error f ≡ true)
    ⊎ ((is_done f ≡ true) × ((context f).transaction.records_count ≤ bound))
    ⊎ Bounded c bound (context f)

abbrev pub StaysBounded : Call → ℕ → ParseResult × ResponseContext → Type 0
StaysBounded c bound p =
    (p.0 ≡ ret_err)
    ⊎ ((p.0 ≡ ret_done) × (p.1.transaction.records_count ≤ bound))
    ⊎ Bounded c bound p.1

pub Flow-cases :
    (f : Flow)
    → ((result : ParseResult) × (r : ResponseContext) × (f ≡ returns result r))
      ⊎ ((offset : ℕ) × (r : ResponseContext) × (f ≡ continues offset r))
Flow-cases (returns result r) = inl (result, r, refl)
Flow-cases (continues offset r) = inr (offset, r, refl)

pub returns-StaysBounded :
    {c : Call} {bound : ℕ} (result : ParseResult) (r : ResponseContext)
    → KeepsBound c bound (returns result r)
    → StaysBounded c bound (result, r)
returns-StaysBounded ret_err r k = inl refl
returns-StaysBounded ret_eop r k = ground arith
returns-StaysBounded ret_done r k = ground arith
returns-StaysBounded ret_loop_end r k = ground arith

pub continues-Bounded :
    {c : Call} {bound : ℕ} (offset : ℕ) (r : ResponseContext)
    → KeepsBound c bound (continues offset r)
    → Bounded c bound r
continues-Bounded offset r (inl e) = cc
continues-Bounded offset r (inr (inl e)) = cc
continues-Bounded offset r (inr (inr v)) = v

pub record SameBatch (r s : ResponseContext) : Type 0 where
  pub state : r.state ≡ s.state
  pub num_bytes : r.record_batches_num_bytes ≡ s.record_batches_num_bytes
  pub batch_length : r.record_batch_length ≡ s.record_batch_length
  pub transaction : r.transaction ≡ s.transaction
  pub idx : r.record_batches_arrays_idx ≡ s.record_batches_arrays_idx
  pub count : r.record_batches_arrays_count ≡ s.record_batches_arrays_count

pub read-SameBatch :
    (response : ResponseContext) (skb : Skb) (offset data_end : ℕ) (first : Bool)
    → SameBatch (read_with_remainder response skb offset data_end first).response response
unfolding read_with_remainder
read-SameBatch response skb offset data_end first = ground arith

-- The blocks behind the next one.
pub bytes_after-next :
    (arrays : List BatchesArray) (idx count : ℕ)
    → suc idx < count
    → bytes_after arrays idx count
      ≡ (get_or arrays (suc idx) zero_array).num_bytes + bytes_after arrays (suc idx) count
unfolding bytes_after
bytes_after-next arrays idx count h = omega (
  arith,
  total-drop (suc idx) (take count arrays),
  ap (λ (a : BatchesArray). a.num_bytes) (get_or-take count (suc idx) arrays h),
)
