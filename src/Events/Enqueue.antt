-- ===== src/Events/Enqueue.antt =====
-- `name##_batch_enqueue` on a page with room.
use erda_agent.Base.{
  ℕ, zero, suc, ◌+◌, ◌-◌, ◌*◌, ◌^◌, ◌<◌, ◌≤◌, ◌≡◌, refl, sym, ap, subst, List, [], ◌∷◌, ◌++◌,
  Option, none, some, false, ◌==◌, take, set, length, arith, nat_eq, if◌then◌else◌, u64,
}
use erda_agent.Maps.{lookup, write}
use erda_agent.Events.{
  Layout, BatchData, Batches, page_num, batch_buffer_size, enqueue_event, batch_enqueue,
}

-- The static assertion of `USM_EVENTS_INIT`, and a batch that has a slot and whose length fits.
pub record Fits (l : Layout) : Type 0 where
  pub slots : 0 < l.batch_size
  pub counted : l.batch_size < 2 ^ 16
  pub buffer : l.batch_size * l.value_size ≤ batch_buffer_size

slot_fits : (n k v : ℕ) → n * v + v ≤ (n + 1 + k) * v
slot_fits n k v = grind arith

module _ {ℓ} {E : Type ℓ} (l : Layout) (fits : Fits l) where
  -- A page with one more event.
  abbrev pub appended : BatchData E → ℕ → E → BatchData E
  appended p idx event = record p {
    slots = set p.slots p.len event;
    len = p.len + 1;
    cap = l.batch_size;
    event_size = l.value_size;
    idx = idx;
  }

  enqueue_event_lem :
      (p : BatchData E) (event : E)
      → p.len < l.batch_size
      → enqueue_event l p event
        ≡ some (record p { slots = set p.slots p.len event; len = p.len + 1 })
  unfolding enqueue_event
  enqueue_event_lem p event h =
      let k = l.batch_size - p.len - 1 in
      let e : l.batch_size ≡ p.len + 1 + k = omega arith in
      let f = slot_fits p.len k l.value_size in
      let g : p.len * l.value_size + l.value_size ≤ batch_buffer_size = omega (
        arith,
        subst (λ n. p.len * l.value_size + l.value_size ≤ n * l.value_size) (sym e) f,
        fits.buffer,
      ) in
      ground (arith, g, fits.counted)

  pub batch_enqueue_room :
      (b : Batches E) (p : BatchData E) (event : E)
      → lookup b.pages (page_num b.idx) ≡ some p
      → p.len < l.batch_size
      → batch_enqueue l b event ≡ record b {
        pages = write b.pages (page_num b.idx) (appended p b.idx event);
        idx = if p.len + 1 == l.batch_size then u64 (b.idx + 1) else b.idx;
      }
  unfolding batch_enqueue
  batch_enqueue_room b p event e h =
      let open_batch : (p.len == l.batch_size) ≡ false = ground arith in
      rw (batch_enqueue, e, open_batch, enqueue_event_lem p event h) refl

module _ {ℓ} {E : Type ℓ} where
  -- The events of a page.
  abbrev pub content : Option (BatchData E) → List E
  content none = []
  content (some p) = take p.len p.slots

  pub take-set :
      (xs : List E) (n : ℕ) (x : E)
      → n < length xs
      → take (n + 1) (set xs n x) ≡ take n xs ++ (x ∷ [])
  take-set [] n x h = absurd (omega arith)
  take-set (y ∷ xs) zero x h = refl
  take-set (y ∷ xs) (suc n) x h =
      let e : suc n + 1 ≡ suc (n + 1) = omega arith in
      rw e (ap (λ zs. y ∷ zs) (take-set xs n x (omega arith)))
