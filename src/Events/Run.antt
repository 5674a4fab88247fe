-- ===== src/Events/Run.antt =====
-- Runs of enqueues and flushes of the batches (ebpf/include/events.h).
use erda_agent.Base.{
  ℕ, ◌≤◌, ◌≡◌, refl, List, [], ◌∷◌, ◌++◌, Option, none, some, Bool, leb, take, length, arith,
  nat_eq, if◌then◌else◌,
}
use erda_agent.Maps.{HashMap, find, lookup}
use erda_agent.Events.{Layout, BatchData, Batches, batch_enqueue, batch_flush}
use erda_agent.Events.Enqueue.{content}

-- An event is enqueued, or the batches are flushed, with what the kernel's outputs answer.
pub data EventStep {ℓ} (E : Type ℓ) : Type ℓ where
  enqueues : E → EventStep E
  flushes : (BatchData E → Bool) → EventStep E

module _ {ℓ} {E : Type ℓ} where
  -- The batches after steps, and the pages that were sent.
  unfoldable pub event_run :
      Layout → List (EventStep E) → Batches E → Batches E × List (BatchData E)
  unfolding batch_enqueue batch_flush
  event_run l [] b = (b, [])
  event_run l (enqueues event ∷ steps) b = event_run l steps (batch_enqueue l b event)
  event_run l (flushes output ∷ steps) b =
      let flushed = batch_flush output b in
      let rest = event_run l steps flushed.0 in (rest.0, flushed.1 ++ rest.1)

  -- The events that are enqueued, in their order.
  unfoldable pub enqueued : List (EventStep E) → List E
  enqueued [] = []
  enqueued (enqueues event ∷ steps) = event ∷ enqueued steps
  enqueued (flushes output ∷ steps) = enqueued steps

  -- The events of pages, in their order.
  unfoldable pub events : List (BatchData E) → List E
  events [] = []
  events (p ∷ ps) = take p.len p.slots ++ events ps

  -- How many events the page 0 can take, if it is there.
  abbrev pub capacity : Layout → Option (BatchData E) → ℕ
  capacity l none = 0
  capacity l (some _) = l.batch_size

  -- The index of the current batch after n events.
  abbrev pub batch_after : Layout → Option (BatchData E) → ℕ → ℕ
  batch_after l none n = 0
  batch_after l (some _) n = if leb l.batch_size n then 1 else 0

  -- Batches from which nothing was sent; the map of pages holds one entry at most, and the page 0,
  -- if it is that entry, is empty.
  pub record IsFresh (l : Layout) (b : Batches E) : Type ℓ where
    pub idx : b.idx ≡ 0
    pub idx_to_flush : b.idx_to_flush ≡ 0
    pub one_page : length b.pages.entries ≤ 1
    pub empty_page : (p : BatchData E) → lookup b.pages 0 ≡ some p → p.len ≡ 0
    pub room : (p : BatchData E) → lookup b.pages 0 ≡ some p → l.batch_size ≤ length p.slots

  abbrev pub batches_at : ℕ → ℕ → HashMap ℕ (BatchData E) → Batches E
  batches_at i f pages = record { idx = i; idx_to_flush = f; pages = pages }

  -- What a run leaves: the events sent and those in the page 0, and the index.
  pub record Leaves (run : Batches E × List (BatchData E)) (q : List E) (i : ℕ) : Type ℓ where
    pub handed_on : events run.1 ++ content (lookup run.0.pages 0) ≡ q
    pub index : run.0.idx ≡ i

  -- A map with one entry holds the page 0 or another.
  pub one_page-find :
      (es : List (ℕ × BatchData E)) (p : BatchData E)
      → length es ≤ 1
      → find 0 es ≡ some p
      → find 1 es ≡ none
  unfolding find
  one_page-find [] p h e = refl
  one_page-find ((k, q) ∷ []) p h e = ground arith
  one_page-find (x ∷ y ∷ es) p h e = absurd (omega arith)
