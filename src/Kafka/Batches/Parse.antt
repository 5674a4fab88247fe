-- ===== src/Kafka/Batches/Parse.antt =====
-- The batches loop on a block of well-formed record batches.
use erda_agent.Base.{
  ℕ, zero, suc, ◌+◌, ◌-◌, ◌^◌, ◌≤◌, ◌<◌, ◌≡◌, refl, inl, List, [], ◌∷◌, some, Bool, true, false,
  ◌||◌, ltb, ◌==◌, u32, u64, neg32, sext32_64, slice, arith, length, be,
}
use erda_agent.Packet.Bytes.{Reads}
use erda_agent.Packet.Buffer.{read_big_endian}
use erda_agent.Kafka.Types.{
  ResponseContext, ret_done, Transaction, response_parser_max_iterations, record_batch_start,
  record_batch_length, record_batch_magic, record_batch_records_count, record_batch_end,
}
use erda_agent.Kafka.Reader.Remainder.{read_with_remainder-whole}
use erda_agent.Kafka.Batches.{
  returns, continues, Call, batches_array_end, batch_end, batch_records_count, batch_magic,
  batch_sized, batch_length, batch_start, dispatch, batches_rounds, record_batches_loop,
}

-- A record batch: the value of its batchLength field, and the number of its records.
pub record Batch : Type 0 where
  pub length : ℕ
  pub records : ℕ

-- batchLength counts neither itself nor the base offset, 12 bytes.
unfoldable pub size : List Batch → ℕ
size [] = 0
size (b ∷ bs) = b.length + 12 + size bs

unfoldable pub records : List Batch → ℕ
records [] = 0
records (b ∷ bs) = b.records + records bs

-- The packet's bytes at an offset are those of one batch of version 2 (its length at 8, magic at
-- 16, number of records at 57, 61 bytes in front of the records).
pub record IsBatch (bytes : List ℕ) (offset : ℕ) (b : Batch) : Type 0 where
  pub length_at : be (slice (offset + 8) 4 bytes) ≡ b.length
  pub magic_at : be (slice (offset + 16) 1 bytes) ≡ 2
  pub records_at : be (slice (offset + 57) 4 bytes) ≡ b.records
  pub header_fits : 49 ≤ b.length
  pub has_records : 0 < b.records
  pub few_records : b.records < b.length

abbrev pub AreBatches : List ℕ → ℕ → List Batch → Type 0
AreBatches bytes offset [] = Unit {0}
AreBatches bytes offset (b ∷ bs) =
    IsBatch bytes offset b × AreBatches bytes (offset + (b.length + 12)) bs

abbrev add_records : ResponseContext → ℕ → Transaction
add_records r n = record (r.transaction) { records_count = r.transaction.records_count + n }

module _ (c : Call) (bytes : List ℕ) (reads : Reads c.skb bytes)
    (within : c.data_end ≤ length bytes) (small : length bytes < 2 ^ 31) where
  magic_lem :
      (offset : ℕ)
      → offset + 1 ≤ length bytes
      → read_big_endian 1 c.skb offset ≡ some (be (slice offset 1 bytes))
  unfolding read_big_endian
  magic_lem offset h =
      let load = reads.in_range offset (0 ∷ []) (omega arith) in
      let len = reads.len_eq in ground arith

  count_step :
      (first : Bool) (offset : ℕ) (r : ResponseContext) (b : Batch)
      → IsBatch bytes offset b
      → r.remainder ≡ 0
      → r.record_batch_length ≡ b.length
      → offset + (b.length + 12) ≤ c.data_end
      → r.transaction.records_count + b.records < 2 ^ 32
      → batch_records_count c first (offset + 57) r
        ≡ batch_end c
            (offset + (b.length + 12))
            (record r { transaction = add_records r b.records; state = record_batch_end })
  unfolding batch_records_count
  count_step first offset r b v e l fits few =
      let rd =
        read_with_remainder-whole r c.skb bytes (offset + 57) c.data_end first reads (inl e)
          (omega arith) within (omega arith) in
      ground arith

  magic_step :
      (first : Bool) (offset : ℕ) (r : ResponseContext) (b : Batch)
      → IsBatch bytes offset b
      → r.remainder ≡ 0
      → r.record_batch_length ≡ b.length
      → offset + (b.length + 12) ≤ c.data_end
      → r.transaction.records_count + b.records < 2 ^ 32
      → batch_magic c first (offset + 16) r
        ≡ batch_end c
            (offset + (b.length + 12))
            (record r { transaction = add_records r b.records; state = record_batch_end })
  unfolding batch_magic
  magic_step first offset r b v e l fits few =
      let next = record r { state = record_batch_records_count } in
      ground (
        arith,
        magic_lem (offset + 16) (omega arith),
        count_step first offset next b v e l fits few,
      )

  sized_step :
      (first : Bool) (offset : ℕ) (r : ResponseContext) (b : Batch)
      → IsBatch bytes offset b
      → r.remainder ≡ 0
      → r.record_batch_length ≡ b.length
      → offset + (b.length + 12) ≤ c.data_end
      → b.length + 12 ≤ r.record_batches_num_bytes
      → r.record_batches_num_bytes < 2 ^ 31
      → r.transaction.records_count + b.records < 2 ^ 32
      → batch_sized c first (offset + 12) r
        ≡ batch_end c
            (offset + (b.length + 12))
            (record r { transaction = add_records r b.records; state = record_batch_end })
  unfolding batch_sized
  sized_step first offset r b v e l fits room block few =
      let header = v.header_fits in
      let step =
        magic_step first offset (record r { state = record_batch_magic }) b v e l fits few in
      let next : u32 (offset + 12 + 4) ≡ offset + 16 = omega arith in
      let positive : neg32 r.record_batch_length || r.record_batch_length == 0 ≡ false =
        ground arith in
      let enough : ltb (sext32_64 r.record_batches_num_bytes)
            (u64 (sext32_64 r.record_batch_length + 12))
          ≡ false =
        ground arith in
      rw (positive, batch_sized) (rw (enough, batch_sized) (rw next step))

  start_step :
      (first : Bool) (offset : ℕ) (r : ResponseContext) (b : Batch)
      → IsBatch bytes offset b
      → r.remainder ≡ 0
      → offset + (b.length + 12) ≤ c.data_end
      → b.length + 12 ≤ r.record_batches_num_bytes
      → r.record_batches_num_bytes < 2 ^ 31
      → r.transaction.records_count + b.records < 2 ^ 32
      → batch_start c first offset r
        ≡ batch_end c (offset + (b.length + 12)) (record r {
          record_batch_length = b.length;
          transaction = add_records r b.records;
          state = record_batch_end;
        })
  unfolding batch_start batch_length
  start_step first offset r b v e fits room block few =
      let begun = record r { state = record_batch_length } in
      let next : u32 (offset + 8) ≡ offset + 8 = omega arith in
      let rd =
        read_with_remainder-whole begun c.skb bytes (offset + 8) c.data_end first reads (inl e)
          (omega arith) within (omega arith) in
      let step =
        sized_step first offset (record begun { record_batch_length = b.length }) b v e refl fits
          room block few in
      ground arith

  -- Behind the last batch of the last block.
  last_end :
      (offset : ℕ) (r : ResponseContext)
      → offset ≤ c.data_end
      → r.record_batch_length + 12 ≡ r.record_batches_num_bytes
      → r.record_batches_num_bytes < 2 ^ 31
      → r.record_batches_arrays_count ≤ r.record_batches_arrays_idx + 1
      → r.record_batches_arrays_idx < 50
      → c.orig_offset ≤ offset
      → batch_end c offset r
        ≡ returns ret_done (record r {
          record_batches_num_bytes = 0;
          record_batch_length = 0;
          record_batches_arrays_idx = r.record_batches_arrays_idx + 1;
          carry_over_offset = offset - c.orig_offset;
        })
  unfolding batch_end batches_array_end
  last_end offset r h e s l k o = ground arith

  -- Behind a batch that is not the last one of its block.
  more_end :
      (offset : ℕ) (r : ResponseContext)
      → offset ≤ c.data_end
      → r.record_batch_length + 12 < r.record_batches_num_bytes
      → r.record_batches_num_bytes < 2 ^ 31
      → batch_end c offset r
        ≡ continues offset (record r {
          record_batches_num_bytes = r.record_batches_num_bytes - (r.record_batch_length + 12);
          record_batch_length = 0;
          state = record_batch_start;
        })
  unfolding batch_end
  more_end offset r h e s = ground arith

  rounds_lem :
      (bs : List Batch) (b : Batch) (rounds : ℕ) (first : Bool) (offset : ℕ) (r : ResponseContext)
      → AreBatches bytes offset (b ∷ bs)
      → r.state ≡ record_batch_start
      → r.remainder ≡ 0
      → r.record_batches_num_bytes ≡ size (b ∷ bs)
      → offset + size (b ∷ bs) ≤ c.data_end
      → r.transaction.records_count + records (b ∷ bs) < 2 ^ 32
      → r.record_batches_arrays_count ≤ r.record_batches_arrays_idx + 1
      → r.record_batches_arrays_idx < 50
      → c.orig_offset ≤ offset
      → length bs < rounds
      → batches_rounds rounds c first offset r ≡ (
        ret_done,
        record r {
          state = record_batch_end;
          record_batches_num_bytes = 0;
          record_batch_length = 0;
          record_batches_arrays_idx = r.record_batches_arrays_idx + 1;
          carry_over_offset = offset + size (b ∷ bs) - c.orig_offset;
          transaction = add_records r (records (b ∷ bs));
        },
      )
  unfolding batches_rounds dispatch size records
  rounds_lem bs b zero first offset r v st e n fits few l k o h = absurd (omega arith)
  rounds_lem [] b (suc rounds) first offset r v st e n fits few l k o h =
      let step =
        start_step first offset r b v.0 e (omega arith) (omega arith) (omega arith) (omega arith) in
      let end =
        last_end (offset + (b.length + 12))
          (record r {
            record_batch_length = b.length;
            transaction = add_records r b.records;
            state = record_batch_end;
          })
          (omega arith) (omega arith) (omega arith) l k (omega arith) in
      ground arith
  rounds_lem (b' ∷ bs) b (suc rounds) first offset r v st e n fits few l k o h =
      let step =
        start_step first offset r b v.0 e (omega arith) (omega arith) (omega arith) (omega arith) in
      let after = record r {
        record_batch_length = b.length;
        transaction = add_records r b.records;
        state = record_batch_end;
      } in
      let end =
        more_end (offset + (b.length + 12)) after (omega arith) (omega arith) (omega arith) in
      let ih =
        rounds_lem bs b' rounds false (offset + (b.length + 12))
          (record after {
            record_batches_num_bytes = r.record_batches_num_bytes - (b.length + 12);
            record_batch_length = 0;
            state = record_batch_start;
          })
          v.1 refl e (omega arith) (omega arith) (omega arith) l k (omega arith) (omega arith) in
      ground arith

-- The last block of a call, with at most ten batches of version 2, each with fewer records than
-- bytes, which lie whole in the packet; no number was split. The loop is done, and the records
-- counted are those counted before and those of all batches; the offset carried over is that of the
-- end of the block, from where the payload begins.
pub record_batches_loop-counts :
    (c : Call) (bytes : List ℕ) (r : ResponseContext) (b : Batch) (bs : List Batch)
    → Reads c.skb bytes
    → c.data_end ≤ length bytes
    → length bytes < 2 ^ 31
    → AreBatches bytes (c.orig_offset + r.carry_over_offset) (b ∷ bs)
    → r.state ≡ record_batch_start
    → r.remainder ≡ 0
    → r.record_batches_num_bytes ≡ size (b ∷ bs)
    → c.orig_offset + r.carry_over_offset + size (b ∷ bs) ≤ c.data_end
    → r.transaction.records_count + records (b ∷ bs) < 2 ^ 32
    → r.record_batches_arrays_count ≤ r.record_batches_arrays_idx + 1
    → r.record_batches_arrays_idx < 50
    → length bs < response_parser_max_iterations
    → record_batches_loop c r ≡ (
      ret_done,
      record r {
        state = record_batch_end;
        record_batches_num_bytes = 0;
        record_batch_length = 0;
        record_batches_arrays_idx = r.record_batches_arrays_idx + 1;
        carry_over_offset = r.carry_over_offset + size (b ∷ bs);
        transaction = add_records r (records (b ∷ bs));
      },
    )
unfolding record_batches_loop
record_batches_loop-counts c bytes r b bs reads within small v st e n fits few l k h =
    let plus : neg32 r.carry_over_offset ≡ false = ground arith in
    let from : u32 (c.orig_offset + r.carry_over_offset) ≡ c.orig_offset + r.carry_over_offset =
      omega arith in
    let parsed =
      rounds_lem c bytes reads within small bs b response_parser_max_iterations true
        (c.orig_offset + r.carry_over_offset) (record r { carry_over_offset = 0 }) v st e n fits few
        l k (omega arith) h in
    rw (plus, from, parsed) (ground arith)
