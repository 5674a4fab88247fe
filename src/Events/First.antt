-- ===== src/Events/First.antt =====
-- What becomes of events, with the one page that the map of pages can hold.
use erda_agent.Base.{
  ℕ, zero, suc, ◌+◌, ◌-◌, length-set, ◌<◌, ◌≤◌, ◌≡◌, refl, sym, ap, subst, ◌∙◌, List, [], ◌∷◌, ◌++◌,
  none, some, Bool, true, false, ◌==◌, leb, Bool-cases, Option-cases, inl, inr, take, length, arith,
  nat_eq, if◌then◌else◌, u32,
}
use erda_agent.Maps.{HashMap, lookup, write}
use erda_agent.Maps.Laws.{lookup-write_self, lookup-write_other}
use erda_agent.Events.{
  Layout, BatchData, Batches, initial_batches, batch_enqueue, flush_rounds, batch_flush,
}
use erda_agent.Events.Enqueue.{Fits, appended, batch_enqueue_room, content, take-set}
use mathlib.Core.List.{append_assoc, append-nil}
use erda_agent.Events.Run.{
  EventStep, enqueues, flushes, event_run, enqueued, events, capacity, batch_after, IsFresh,
  batches_at, Leaves, one_page-find,
}

module _ {ℓ} {E : Type ℓ} (l : Layout) where
  -- Without the page 0 nothing happens.
  absent-run :
      (steps : List (EventStep E)) (pages : HashMap ℕ (BatchData E))
      → lookup pages 0 ≡ none
      → event_run l steps (batches_at 0 0 pages) ≡ (batches_at 0 0 pages, [])
  unfolding event_run batch_enqueue batch_flush flush_rounds
  absent-run [] pages e = refl
  absent-run (enqueues event ∷ steps) pages e =
      let same : batch_enqueue l (batches_at 0 0 pages) event ≡ batches_at 0 0 pages =
        rw (batch_enqueue, e) refl in
      ap (event_run l steps) same ∙ absent-run steps pages e
  absent-run (flushes output ∷ steps) pages e =
      ap (λ (r : Batches E × List (BatchData E)). (r.0, r.1)) (absent-run steps pages e)

  -- Behind the first batch there is no page.
  enqueue-lost :
      (pages : HashMap ℕ (BatchData E)) (f : ℕ) (event : E)
      → lookup pages 1 ≡ none
      → batch_enqueue l (batches_at 1 f pages) event ≡ batches_at 1 f pages
  unfolding batch_enqueue
  enqueue-lost pages f event e = rw (batch_enqueue, e) refl

  -- The first batch was sent.
  sent-Leaves :
      (steps : List (EventStep E)) (pages : HashMap ℕ (BatchData E))
      → content (lookup pages 0) ≡ []
      → lookup pages 1 ≡ none
      → Leaves (event_run l steps (batches_at 1 1 pages)) [] 1
  unfolding event_run batch_flush flush_rounds events
  sent-Leaves [] pages c e = record { handed_on = c; index = refl }
  sent-Leaves (enqueues event ∷ steps) pages c e =
      subst (λ b. Leaves (event_run l steps b) [] 1) (sym (enqueue-lost pages 1 event e))
        (sent-Leaves steps pages c e)
  sent-Leaves (flushes output ∷ steps) pages c e =
      let r = sent-Leaves steps pages c e in record { handed_on = r.handed_on; index = r.index }

  flush_failed :
      (pages : HashMap ℕ (BatchData E)) (p : BatchData E) (output : BatchData E → Bool)
      → lookup pages 0 ≡ some p
      → output p ≡ false
      → batch_flush output (batches_at 1 0 pages) ≡ (
        batches_at 1 0 (write pages 0 (record p { failed_flushes = u32 (p.failed_flushes + 1) })),
        [],
      )
  unfolding batch_flush flush_rounds
  flush_failed pages p output e o = rw (batch_flush, flush_rounds, e, o) refl

  abbrev emptied : BatchData E → BatchData E
  emptied p = record p { dropped_events = 0; failed_flushes = 0; len = 0 }

  flush_sends :
      (pages : HashMap ℕ (BatchData E)) (p : BatchData E) (output : BatchData E → Bool)
      → lookup pages 0 ≡ some p
      → output p ≡ true
      → batch_flush output (batches_at 1 0 pages)
        ≡ (batches_at 1 1 (write pages 0 (emptied p)), p ∷ [])
  unfolding batch_flush flush_rounds
  flush_sends pages p output e o = rw (batch_flush, flush_rounds, e, o) refl

  -- The first batch is full.
  full-Leaves :
      (steps : List (EventStep E)) (pages : HashMap ℕ (BatchData E)) (p : BatchData E)
      → lookup pages 0 ≡ some p
      → lookup pages 1 ≡ none
      → Leaves (event_run l steps (batches_at 1 0 pages)) (content (some p)) 1
  unfolding event_run events
  full-Leaves [] pages p e n = record { handed_on = ap content e; index = refl }
  full-Leaves (enqueues event ∷ steps) pages p e n =
      subst (λ b. Leaves (event_run l steps b) (content (some p)) 1)
        (sym (enqueue-lost pages 0 event n)) (full-Leaves steps pages p e n)
  full-Leaves (flushes output ∷ steps) pages p e n = elim (Bool-cases (output p)) [
    | inr o ↦
        let v = record p { failed_flushes = u32 (p.failed_flushes + 1) } in
        let r =
          full-Leaves steps (write pages 0 v) v (lookup-write_self pages 0 v p e)
            (lookup-write_other pages 0 1 v refl ∙ n) in
        rw (event_run, flush_failed pages p output e o)
          (record { handed_on = r.handed_on; index = r.index })
    | inl o ↦
        let v = emptied p in
        let r =
          sent-Leaves steps (write pages 0 v) (ap content (lookup-write_self pages 0 v p e))
            (lookup-write_other pages 0 1 v refl ∙ n) in
        let xs = take p.len p.slots in
        let run = event_run l steps (batches_at 1 1 (write pages 0 v)) in
        rw (event_run, flush_sends pages p output e o)
          (record {
            handed_on =
                append_assoc xs (events run.1) (content (lookup run.0.pages 0))
                ∙ ap (λ ys. xs ++ ys) r.handed_on
                ∙ append-nil xs;
            index = r.index;
          })
  ]

take-nil {ℓ} : (E : Type ℓ) (n : ℕ) → take {A = E} n [] ≡ []
take-nil E zero = refl
take-nil E (suc n) = refl

-- One event more of those that fit.
take-enqueued {ℓ} :
    {E : Type ℓ} (slots es : List E) (len size : ℕ) (event : E)
    → len < size
    → (take len slots ++ (event ∷ [])) ++ take (size - (len + 1)) es
      ≡ take len slots ++ take (size - len) (event ∷ es)
take-enqueued slots es len size event h =
    let e : size - len ≡ suc (size - (len + 1)) = omega arith in
    rw e (append_assoc (take len slots) (event ∷ []) (take (size - (len + 1)) es))

-- A full batch takes nothing more.
take-full {ℓ} :
    {E : Type ℓ} (slots es : List E) (len size : ℕ) (event : E)
    → len + 1 ≡ size
    → take len slots ++ (event ∷ []) ≡ take len slots ++ take (size - len) (event ∷ es)
take-full slots es len size event h = let e : size - len ≡ 1 = omega arith in rw e refl

module _ {ℓ} {E : Type ℓ} (l : Layout) (fits : Fits l) where
  -- The first batch has room.
  filling-Leaves :
      (steps : List (EventStep E)) (pages : HashMap ℕ (BatchData E)) (p : BatchData E)
      → lookup pages 0 ≡ some p
      → lookup pages 1 ≡ none
      → p.len < l.batch_size
      → l.batch_size ≤ length p.slots
      → Leaves
          (event_run l steps (batches_at 0 0 pages))
          (content (some p) ++ take (l.batch_size - p.len) (enqueued steps))
          (if leb l.batch_size (p.len + length (enqueued steps)) then 1 else 0)
  unfolding event_run enqueued events batch_flush flush_rounds
  filling-Leaves [] pages p e n h room = record {
    handed_on = rw (e, take-nil E (l.batch_size - p.len)) (sym (append-nil (take p.len p.slots)));
    index = ground arith;
  }
  filling-Leaves (flushes output ∷ steps) pages p e n h room =
      let r = filling-Leaves steps pages p e n h room in
      record { handed_on = r.handed_on; index = r.index }
  filling-Leaves (enqueues event ∷ steps) pages p e n h room =
      let v = appended l fits p 0 event in
      let pages' = write pages 0 v in
      let there = lookup-write_self pages 0 v p e in
      let no_next = lookup-write_other pages 0 1 v refl ∙ n in
      let c : content (some v) ≡ content (some p) ++ (event ∷ []) =
        take-set p.slots p.len event (omega arith) in
      let stepped = batch_enqueue_room l fits (batches_at 0 0 pages) p event e h in
      elim (Bool-cases (p.len + 1 == l.batch_size)) [
        | inl full ↦
            let r = full-Leaves l steps pages' v there no_next in
            let i : leb l.batch_size (p.len + length (event ∷ enqueued steps)) ≡ true =
              ground arith in
            rw (event_run, stepped, full, i)
              (record {
                handed_on =
                    r.handed_on
                    ∙ c
                    ∙ take-full p.slots (enqueued steps) p.len l.batch_size event (ground arith);
                index = r.index;
              })
        | inr more ↦
            let r =
              filling-Leaves steps pages' v there no_next (ground arith)
                (omega (arith, length-set p.slots p.len event, room)) in
            let q = take-enqueued p.slots (enqueued steps) p.len l.batch_size event h in
            let j : p.len + 1 + length (enqueued steps) ≡ p.len + length (event ∷ enqueued steps) =
              omega arith in
            rw (event_run, stepped, more)
              (record {
                handed_on =
                    r.handed_on
                    ∙ ap (λ ys. ys ++ take (l.batch_size - (p.len + 1)) (enqueued steps)) c
                    ∙ q;
                index = r.index ∙ ap (λ k. if leb l.batch_size k then 1 else 0) j;
              })
      ]

  -- A map with one page at most.
  fresh-Leaves :
      (steps : List (EventStep E)) (pages : HashMap ℕ (BatchData E))
      → IsFresh l (batches_at 0 0 pages)
      → Leaves
          (event_run l steps (batches_at 0 0 pages))
          (take (capacity l (lookup pages 0)) (enqueued steps))
          (batch_after l (lookup pages 0) (length (enqueued steps)))
  unfolding events lookup
  fresh-Leaves steps pages fresh = elim (Option-cases (lookup pages 0)) [
    | inl e ↦ rw (absent-run l steps pages e, e) (record { handed_on = ap content e; index = refl })
    | inr (p, e) ↦
        let z = fresh.empty_page p e in
        let r =
          filling-Leaves steps pages p e (one_page-find pages.entries p fresh.one_page e)
            (omega (arith, fits.slots)) (fresh.room p e) in
        let left : l.batch_size - p.len ≡ l.batch_size = omega arith in
        let count : p.len + length (enqueued steps) ≡ length (enqueued steps) = omega arith in
        let all : take p.len p.slots ++ take (l.batch_size - p.len) (enqueued steps)
            ≡ take l.batch_size (enqueued steps) =
          rw (left, z) refl in
        rw e (record {
          handed_on = r.handed_on ∙ all;
          index = r.index ∙ ap (λ k. if leb l.batch_size k then 1 else 0) count;
        })
  ]

-- Any events are enqueued on batches from which nothing was sent, with any flushes between them,
-- whatever the kernel's outputs answer; the map of pages holds one entry at most, as it is declared.
-- The events that were sent, and then those in the page 0, are the first events that were enqueued,
-- in their order: as many as one batch has slots, or none if the page 0 is not there. The index is 1
-- once the batch is full, and goes no further.
pub event_run-Leaves {ℓ} :
    {E : Type ℓ} (l : Layout) (steps : List (EventStep E)) (b : Batches E)
    → Fits l
    → IsFresh l b
    → Leaves
        (event_run l steps b)
        (take (capacity l (lookup b.pages 0)) (enqueued steps))
        (batch_after l (lookup b.pages 0) (length (enqueued steps)))
event_run-Leaves {E = E} l steps b fits fresh =
    let first : b ≡ batches_at 0 0 b.pages =
      λ i. record { idx = fresh.idx i; idx_to_flush = fresh.idx_to_flush i; pages = b.pages } in
    let fresh' = subst (λ (x : Batches E). IsFresh l x) first fresh in
    subst
      (λ (x : Batches E).
        Leaves (event_run l steps x) (take (capacity l (lookup b.pages 0)) (enqueued steps))
          (batch_after l (lookup b.pages 0) (length (enqueued steps))))
      (sym first) (fresh-Leaves l fits steps b.pages fresh')

-- The batches as they are declared have no page to be sent.
pub flush_initial {ℓ} :
    {E : Type ℓ} (output : BatchData E → Bool)
    → batch_flush output initial_batches ≡ (initial_batches, [])
unfolding batch_flush flush_rounds
flush_initial output = refl
