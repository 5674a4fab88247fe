-- ===== src/Kafka/Batches/Count.antt =====
-- The records that the batches loop counts are bounded by the bytes of the blocks that it parses.
use erda_agent.Base.{
  ℕ, zero, suc, ◌+◌, ◌-◌, ◌^◌, ◌≤◌, ◌<◌, ◌≡◌, refl, subst, Bool-cases, inl, inr, Bool, true, false,
  u32, sub32, neg32, arith,
}
use erda_agent.Kafka.Types.{
  ResponseContext, ResponseState, response_parser_max_iterations, record_batch_start,
  record_batch_length, record_batch_magic, record_batch_records_count, record_batch_end,
  record_batches_array_end,
}
use erda_agent.Kafka.Reader.{read_with_remainder}
use erda_agent.Kafka.Batches.{
  Call, batches_array_end, batch_end, batch_records_count, batch_magic, batch_sized, batch_length,
  batch_start, dispatch, batches_rounds, record_batches_loop,
}
use erda_agent.Kafka.Batches.Bounded.{
  Flow-cases, bytes_after, Bounded, KeepsBound, StaysBounded, returns-StaysBounded,
  continues-Bounded, read-SameBatch, bytes_after-next,
}

module _ (c : Call) (bound : ℕ) (small : bound < 2 ^ 31) where
  batches_array_end-KeepsBound :
      (offset : ℕ) (r : ResponseContext)
      → r.record_batches_arrays_idx < 50
      → r.transaction.records_count
          + bytes_after c.arrays r.record_batches_arrays_idx r.record_batches_arrays_count
        ≤ bound
      → KeepsBound c bound (batches_array_end c offset r)
  unfolding batches_array_end
  batches_array_end-KeepsBound offset r s h =
      let e : u32 (r.record_batches_arrays_idx + 1) ≡ suc r.record_batches_arrays_idx =
        omega arith in
      rw e (
        ground (
          arith,
          bytes_after-next c.arrays r.record_batches_arrays_idx r.record_batches_arrays_count,
        ))

  -- The state names where the batch stands; the hypotheses are what `Bounded` says there.
  batch_end-KeepsBound :
      (offset : ℕ) (r : ResponseContext)
      → r.record_batches_arrays_idx < 50
      → r.state ≡ record_batch_end
      → Bounded c bound r
      → KeepsBound c bound (batch_end c offset r)
  unfolding batch_end
  batch_end-KeepsBound offset r s e v = ground (
    arith,
    batches_array_end-KeepsBound offset
        (record r {
          record_batches_num_bytes =
              sub32 r.record_batches_num_bytes (u32 (r.record_batch_length + 12));
          record_batch_length = 0;
        })
        s,
  )

  batch_records_count-KeepsBound :
      (first : Bool) (offset : ℕ) (r : ResponseContext)
      → r.record_batches_arrays_idx < 50
      → r.state ≡ record_batch_records_count
      → Bounded c bound r
      → KeepsBound c bound (batch_records_count c first offset r)
  unfolding batch_records_count
  batch_records_count-KeepsBound first offset r s e v =
      let rd = read_with_remainder r c.skb offset c.data_end first in
      ground (
        arith,
        read-SameBatch r c.skb offset c.data_end first,
        batch_end-KeepsBound (u32 (rd.offset + rd.response.record_batch_length + 2 ^ 32 - 49))
            (record rd.response {
              transaction = record (rd.response.transaction) {
                records_count = u32 (rd.response.transaction.records_count + rd.value);
              };
              state = record_batch_end;
            }),
      )

  batch_magic-KeepsBound :
      (first : Bool) (offset : ℕ) (r : ResponseContext)
      → r.record_batches_arrays_idx < 50
      → r.state ≡ record_batch_magic
      → Bounded c bound r
      → KeepsBound c bound (batch_magic c first offset r)
  unfolding batch_magic
  batch_magic-KeepsBound first offset r s e v = ground (
    arith,
    batch_records_count-KeepsBound first (u32 (offset + 41))
        (record r { state = record_batch_records_count }),
  )

  batch_sized-KeepsBound :
      (first : Bool) (offset : ℕ) (r : ResponseContext)
      → r.record_batches_arrays_idx < 50
      → r.state ≡ record_batch_length
      → r.transaction.records_count
          + r.record_batches_num_bytes
          + bytes_after c.arrays r.record_batches_arrays_idx r.record_batches_arrays_count
        ≤ bound
      → KeepsBound c bound (batch_sized c first offset r)
  unfolding batch_sized
  batch_sized-KeepsBound first offset r s e v = ground (
    arith,
    batch_magic-KeepsBound first (u32 (offset + 4)) (record r { state = record_batch_magic }),
  )

  batch_length-KeepsBound :
      (first : Bool) (offset : ℕ) (r : ResponseContext)
      → r.record_batches_arrays_idx < 50
      → r.state ≡ record_batch_length
      → Bounded c bound r
      → KeepsBound c bound (batch_length c first offset r)
  unfolding batch_length
  batch_length-KeepsBound first offset r s e v =
      let rd = read_with_remainder r c.skb offset c.data_end first in
      ground (
        arith,
        read-SameBatch r c.skb offset c.data_end first,
        batch_sized-KeepsBound first rd.offset
            (record rd.response { record_batch_length = rd.value }),
      )

  dispatch-KeepsBound :
      (state : ResponseState) (first : Bool) (offset : ℕ) (r : ResponseContext)
      → r.record_batches_arrays_idx < 50
      → r.state ≡ state
      → Bounded c bound r
      → KeepsBound c bound (dispatch state c first offset r)
  unfolding dispatch batch_start
  dispatch-KeepsBound record_batch_start first offset r s e v =
      batch_length-KeepsBound first (u32 (offset + 8)) (record r { state = record_batch_length }) s
        refl (record { counted = ground arith; current = s; sized = inl refl })
  dispatch-KeepsBound record_batch_length first offset r s e v =
      batch_length-KeepsBound first offset r s e v
  dispatch-KeepsBound record_batch_magic first offset r s e v =
      batch_magic-KeepsBound first offset r s e v
  dispatch-KeepsBound record_batch_records_count first offset r s e v =
      batch_records_count-KeepsBound first offset r s e v
  dispatch-KeepsBound record_batch_end first offset r s e v = batch_end-KeepsBound offset r s e v
  dispatch-KeepsBound record_batches_array_end first offset r s e v =
      batches_array_end-KeepsBound offset r s (ground arith)
  dispatch-KeepsBound _ first offset r s e v = inr (inr v)

  rounds-KeepsBound :
      (rounds : ℕ) (first : Bool) (offset : ℕ) (r : ResponseContext)
      → Bounded c bound r
      → StaysBounded c bound (batches_rounds rounds c first offset r)
  unfolding batches_rounds
  rounds-KeepsBound zero first offset r v = inr (inr (ground arith))
  rounds-KeepsBound (suc rounds) first offset r v =
      elim (Flow-cases (dispatch r.state c first offset r)) [
        | inl (result, r', e) ↦
            rw (e, batches_rounds)
              (returns-StaysBounded result r' (
                subst (KeepsBound c bound) e
                  (dispatch-KeepsBound r.state first offset r v.current refl v)))
        | inr (offset', r', e) ↦
            rw (e, batches_rounds)
              (rounds-KeepsBound rounds false offset' r' (
                continues-Bounded offset' r' (
                  subst (KeepsBound c bound) e
                    (dispatch-KeepsBound r.state first offset r v.current refl v))))
      ]

-- A call of the batches loop, from a context in which the records counted so far, the bytes that
-- are left of the current block and those of the blocks behind it make at most `bound` (less than
-- 2 ^ 31): it fails, or the records counted are still at most `bound`; and unless it fails or is
-- done, the records and the bytes that are left make at most `bound` again, and a batch that was
-- entered fits what is left. So no packet makes the filter count more records than the blocks have
-- bytes.
pub record_batches_loop-StaysBounded :
    (c : Call) (bound : ℕ) (r : ResponseContext)
    → bound < 2 ^ 31
    → Bounded c bound r
    → StaysBounded c bound (record_batches_loop c r)
unfolding record_batches_loop
record_batches_loop-StaysBounded c bound r small v = elim (Bool-cases (neg32 r.carry_over_offset)) [
  | inl e ↦ rw e (inl refl)
  | inr e ↦ rw e (
      rounds-KeepsBound c bound small response_parser_max_iterations true
        (u32 (c.orig_offset + r.carry_over_offset)) (record r { carry_over_offset = 0 })
        (ground arith))
]
