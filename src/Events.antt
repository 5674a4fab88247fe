-- ===== src/Events.antt =====
-- ebpf/include/events.h and events-types.h: the batches in which a CPU's program hands its events
-- to user space. The pages are those of the CPU that the program runs on, so a key is the number of
-- the page. The map of the pages is declared with one entry for all CPUs, and no code of the
-- repository puts a page into it. A page is made of slots, one for an event.
pub mod Enqueue
pub mod Run
pub mod First
use erda_agent.Base.{
  ℕ, zero, suc, ◌+◌, ◌*◌, ◌%◌, List, [], ◌∷◌, ◌++◌, Option, none, some, Bool, true, false, ltb,
  ◌==◌, if◌then◌else◌, u16, u32, u64, set, nat_eq,
}
use erda_agent.Maps.{HashMap, empty, lookup, write}

abbrev pub batch_buffer_size : ℕ
batch_buffer_size = 4096

abbrev pub batch_pages_per_cpu : ℕ
batch_pages_per_cpu = 8

-- The parameters of `USM_EVENTS_INIT`: the size of a batch, and of its events in bytes.
pub record Layout : Type 0 where
  pub batch_size : ℕ
  pub value_size : ℕ

-- `batch_data_t` but for the CPU.
pub record BatchData {ℓ} (E : Type ℓ) : Type ℓ where
  pub idx : ℕ
  pub len : ℕ
  pub cap : ℕ
  pub event_size : ℕ
  pub dropped_events : ℕ
  pub failed_flushes : ℕ
  pub slots : List E

-- `batch_state_t` and the pages, of which the map holds one at most.
pub record Batches {ℓ} (E : Type ℓ) : Type ℓ where
  pub idx : ℕ
  pub idx_to_flush : ℕ
  pub pages : HashMap ℕ (BatchData E)

-- The maps as `USM_EVENTS_INIT` declares them: the state of an array map is there from the beginning,
-- and of the pages there is none.
abbrev pub initial_batches {ℓ} : {E : Type ℓ} → Batches E
initial_batches = record { idx = 0; idx_to_flush = 0; pages = empty 1 }

abbrev pub page_num : ℕ → ℕ
page_num batch_idx = batch_idx % batch_pages_per_cpu

module _ {ℓ} {E : Type ℓ} (l : Layout) where
  -- `name##_batch_full`, of a page that is there.
  abbrev pub batch_full : BatchData E → Bool
  batch_full batch = batch.len == l.batch_size

  -- `__enqueue_event`; `len` is a __u16.
  unfoldable pub enqueue_event : BatchData E → E → Option (BatchData E)
  enqueue_event batch event =
      if ltb batch_buffer_size (u32 (batch.len * l.value_size) + l.value_size)
      then none
      else some
          (record batch { slots = set batch.slots batch.len event; len = u16 (batch.len + 1) })

  -- `name##_batch_enqueue`
  unfoldable pub batch_enqueue : Batches E → E → Batches E
  unfolding enqueue_event lookup write
  batch_enqueue b event = elim (lookup b.pages (page_num b.idx)) [
    | none ↦ b
    | some batch ↦
        if batch_full batch
        then record b {
          pages =
              write b.pages (page_num b.idx)
                (record batch { dropped_events = u32 (batch.dropped_events + 1) });
        }
        else elim (enqueue_event batch event) [
          | none ↦ b
          | some batch' ↦
              let annotated = record batch' {
                cap = l.batch_size;
                event_size = l.value_size;
                idx = b.idx;
              } in
              record b {
                pages = write b.pages (page_num b.idx) annotated;
                idx = if batch_full annotated then u64 (b.idx + 1) else b.idx;
              }
        ]
  ]

module _ {ℓ} {E : Type ℓ} where
  -- `name##_batch_flush`, on the rounds that are left, with the pages that were sent so far. `output`
  -- is the kernel's output of a page: whether it succeeds.
  flush_rounds :
      (BatchData E → Bool) → ℕ → Batches E → List (BatchData E) → Batches E × List (BatchData E)
  unfolding lookup write
  flush_rounds output zero b sent = (b, sent)
  flush_rounds output (suc rounds) b sent = elim (b.idx_to_flush == b.idx) [
    | true ↦ (b, sent)
    | false ↦ elim (lookup b.pages (page_num b.idx_to_flush)) [
      | none ↦ (b, sent)
      | some batch ↦ elim (output batch) [
        | false ↦ (
          record b {
            pages =
                write b.pages (page_num b.idx_to_flush)
                  (record batch { failed_flushes = u32 (batch.failed_flushes + 1) });
          },
          sent,
        )
        | true ↦
            flush_rounds output rounds
              (record b {
                pages =
                    write b.pages (page_num b.idx_to_flush)
                      (record batch { dropped_events = 0; failed_flushes = 0; len = 0 });
                idx_to_flush = u64 (b.idx_to_flush + 1);
              })
              (sent ++ (batch ∷ []))
      ]
    ]
  ]

  unfoldable pub batch_flush : (BatchData E → Bool) → Batches E → Batches E × List (BatchData E)
  unfolding flush_rounds
  batch_flush output b = flush_rounds output batch_pages_per_cpu b []
