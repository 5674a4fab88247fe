-- ===== src/Kafka/Partitions/Extends.antt =====
-- How the entries of `kafka->record_batches_arrays` may change during the partition loop.
use erda_agent.Base.{
  ℕ, ◌≤◌, ◌<◌, ◌≡◌, refl, ap, ◌∙◌, ◌⊎◌, inl, inr, Bool, true, false, if◌then◌else◌, sub32, get_or,
  length, length-set, get_or-set_self, get_or-set_other, arith,
}
use erda_agent.Kafka.Types.{
  ParseResult, ret_eop, ret_done, ret_err, ret_loop_end, BatchesArray, max_record_batches_arrays,
}
use erda_agent.Kafka.Reader.{Reading}
use erda_agent.Kafka.Reader.Keeps.{Keeps}
use erda_agent.Kafka.Batches.{zero_array}
use erda_agent.Kafka.Partitions.{Parser, Flow, returns, continues, Call, reading, note_array}

abbrev pub parser : Flow → Parser
parser (returns result p) = p
parser (continues offset p) = p

-- The fields of the context that the partition loop leaves alone.
abbrev pub Untouched : Parser → Parser → Type 0
Untouched p q =
    (q.response.expected_tcp_seq ≡ p.response.expected_tcp_seq)
    × (q.response.transaction ≡ p.response.transaction)

-- The entries of `q` against those of `p`: there is no more than the array holds, those that `p`
-- had noted and those behind the new ones are as they were, and no new one is of an empty block;
-- the transaction and the sequence number that is expected are as they were.
pub record Extends (p q : Parser) : Type 0 where
  pub untouched : Untouched p q
  pub size : length q.arrays ≡ length p.arrays
  pub grows : p.response.record_batches_arrays_count ≤ q.response.record_batches_arrays_count
  pub room : q.response.record_batches_arrays_count ≤ max_record_batches_arrays
  pub kept :
      (i : ℕ)
      → i < p.response.record_batches_arrays_count
      → get_or q.arrays i zero_array ≡ get_or p.arrays i zero_array
  pub filled :
      (i : ℕ)
      → p.response.record_batches_arrays_count ≤ i
      → i < q.response.record_batches_arrays_count
      → 0 < (get_or q.arrays i zero_array).num_bytes
  pub free :
      (i : ℕ)
      → q.response.record_batches_arrays_count ≤ i
      → get_or q.arrays i zero_array ≡ get_or p.arrays i zero_array

abbrev pub HasRoom : Parser → Type 0
HasRoom p =
    (length p.arrays ≡ max_record_batches_arrays)
    × (p.response.record_batches_arrays_count ≤ max_record_batches_arrays)

pub same-Extends :
    (p q : Parser)
    → HasRoom p
    → q.arrays ≡ p.arrays
    → q.response.record_batches_arrays_count ≡ p.response.record_batches_arrays_count
    → Untouched p q
    → Extends p q
same-Extends p q h a n u = record {
  untouched = u;
  size = ap length a;
  grows = omega (arith, n);
  room = omega (arith, n, h.1);
  kept = λ i _. ap (λ xs. get_or xs i zero_array) a;
  filled = λ i k l. absurd (omega (arith, n));
  free = λ i _. ap (λ xs. get_or xs i zero_array) a;
}

pub Extends-trans : (p q r : Parser) → Extends p q → Extends q r → Extends p r
Extends-trans p q r a b = record {
  untouched = (b.untouched.0 ∙ a.untouched.0, b.untouched.1 ∙ a.untouched.1);
  size = omega (arith, a.size, b.size);
  grows = omega (arith, a.grows, b.grows);
  room = b.room;
  kept = λ i h. ground (arith, a.kept i, a.grows, b.kept i);
  filled = λ i h l. ground (arith, b.kept i, b.filled i, a.filled i);
  free = λ i h. ground (arith, b.free i, b.grows, a.free i);
}

pub note_array-Extends :
    (c : Call) (offset : ℕ) (p : Parser)
    → HasRoom p
    → p.response.record_batches_arrays_count < max_record_batches_arrays
    → 0 < p.response.record_batches_num_bytes
    → Extends p (note_array c offset p)
unfolding note_array
note_array-Extends c offset p h l v =
    let idx = p.response.record_batches_arrays_count in
    let a : BatchesArray = record {
      num_bytes = p.response.record_batches_num_bytes;
      offset = sub32 offset c.orig_offset;
    } in
    record {
      untouched = (refl, refl);
      size = length-set p.arrays idx a;
      grows = omega arith;
      room = omega arith;
      kept = λ i k. get_or-set_other p.arrays idx i a zero_array (λ e. omega arith);
      filled = λ i k m.
          let e : idx ≡ i = omega arith in
          ground (arith, e, get_or-set_self p.arrays idx a zero_array);
      free = λ i k. get_or-set_other p.arrays idx i a zero_array (λ e. omega arith);
    }

-- The room that is left after entries were added.
pub Extends-HasRoom : (p q : Parser) → HasRoom p → Extends p q → HasRoom q
Extends-HasRoom p q h e = (omega (arith, e.size, h.0), e.room)

pub Result-cases :
    (r : ParseResult) → (r ≡ ret_done) ⊎ (r ≡ ret_eop) ⊎ (r ≡ ret_err) ⊎ (r ≡ ret_loop_end)
Result-cases ret_done = inl refl
Result-cases ret_eop = inr (inl refl)
Result-cases ret_err = inr (inr (inl refl))
Result-cases ret_loop_end = inr (inr (inr refl))

-- A part that reads with `r` and goes on with `next`.
pub reading-Extends :
    (r : Reading) (p : Parser) (next : ℕ → ℕ → Parser → Flow)
    → HasRoom p
    → Keeps p.response r
    → ((offset value : ℕ) (q : Parser) → HasRoom q → Extends q (parser (next offset value q)))
    → Extends p (parser (reading r p next))
unfolding reading Keeps
reading-Extends r p next h k f =
    let q : Parser = record p { response = r.response } in
    let e : Extends p q = same-Extends p q h refl k.0 (k.1, k.2) in
    let t : Extends p (parser (next r.offset r.value q)) =
      Extends-trans p q (parser (next r.offset r.value q)) e
        (f r.offset r.value q (Extends-HasRoom p q h e)) in
    elim (Result-cases r.result) [
      | inl d ↦ rw d t
      | inr (inl d) ↦ rw d e
      | inr (inr (inl d)) ↦ rw d e
      | inr (inr (inr d)) ↦ rw d e
    ]

pub if-Extends :
    (b : Bool) (p : Parser) (f g : Flow)
    → Extends p (parser f)
    → Extends p (parser g)
    → Extends p (parser (if b then f else g))
if-Extends true p f g x y = x
if-Extends false p f g x y = y

-- A part that first changes other fields of the context.
pub through-Extends :
    (p q r : Parser)
    → HasRoom p
    → q.arrays ≡ p.arrays
    → q.response.record_batches_arrays_count ≡ p.response.record_batches_arrays_count
    → Untouched p q
    → (HasRoom q → Extends q r)
    → Extends p r
through-Extends p q r h a n u f =
    let e : Extends p q = same-Extends p q h a n u in
    Extends-trans p q r e (f (Extends-HasRoom p q h e))
