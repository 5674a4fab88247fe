-- ===== src/Examples/Queue.antt =====
-- The batches of events.
use erda_agent.Base.{ℕ, refl, List, [], ◌∷◌, true, false, arith, nat_eq}
use erda_agent.Maps.{lookup}
use erda_agent.Events.{Layout, BatchData, Batches}
use erda_agent.Events.Enqueue.{Fits}
use erda_agent.Events.Run.{EventStep, enqueues, flushes, event_run, enqueued, IsFresh, Leaves}
use erda_agent.Events.First.{event_run-Leaves}

abbrev pairs_layout : Layout
pairs_layout = record { batch_size = 2; value_size = 8 }

pairs_layout-Fits : Fits pairs_layout
pairs_layout-Fits = record { slots = omega arith; counted = omega arith; buffer = omega arith }

abbrev empty_page : BatchData ℕ
empty_page = record {
  idx = 0;
  len = 0;
  cap = 0;
  event_size = 0;
  dropped_events = 0;
  failed_flushes = 0;
  slots = 0 ∷ 0 ∷ [];
}

-- The map of pages with its one entry taken.
abbrev one_page : Batches ℕ
one_page = record {
  idx = 0;
  idx_to_flush = 0;
  pages = record { max_entries = 1; entries = (0, empty_page) ∷ [] };
}

one_page-IsFresh : IsFresh pairs_layout one_page
unfolding lookup
one_page-IsFresh = record {
  idx = refl;
  idx_to_flush = refl;
  one_page = omega arith;
  empty_page = λ p e. ground (arith, e);
  room = λ p e. ground (arith, e);
}

-- The third event does not fit, and the first flush fails.
abbrev event_steps : List (EventStep ℕ)
event_steps =
    enqueues 10
    ∷ enqueues 11
    ∷ flushes (λ _. false)
    ∷ enqueues 12
    ∷ flushes (λ _. true)
    ∷ enqueues 13
    ∷ []

event_run-Leaves_example : Leaves (event_run pairs_layout event_steps one_page) (10 ∷ 11 ∷ []) 1
unfolding lookup enqueued
event_run-Leaves_example =
    event_run-Leaves pairs_layout event_steps one_page pairs_layout-Fits one_page-IsFresh
