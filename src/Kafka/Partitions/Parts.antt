-- ===== src/Kafka/Partitions/Parts.antt =====
-- The entries that each part of the partition loop's switch leaves.
use erda_agent.Base.{
  ℕ, ◌+◌, ◌-◌, ◌^◌, refl, Bool-cases, inl, inr, Bool, false, not, ◌&&◌, leb, ◌==◌, u32, neg64,
  arith,
}
use erda_agent.Kafka.Types.{
  ResponseState, max_record_batches_arrays, varint_bytes_3fff, varint_bytes_0fffffff,
  partition_start, partition_aborted_transactions, record_batches_array_start,
  partition_tagged_fields, partition_end,
}
use erda_agent.Kafka.Reader.{read_varint_or_s32, skip_tagged_fields}
use erda_agent.Kafka.Reader.Keeps.{tagged_fields-Keeps, s32-Keeps}
use erda_agent.Kafka.Partitions.{
  Parser, enter, aborted_size, partition_head_size, Call, part_end, part_tagged_fields, note_array,
  part_array_sized, part_array_start, part_aborted_transactions, part_start, dispatch,
}
use erda_agent.Kafka.Partitions.Extends.{
  Extends, HasRoom, parser, same-Extends, Extends-trans, note_array-Extends, Extends-HasRoom,
  reading-Extends, if-Extends, through-Extends,
}

module _ (c : Call) where
  pub part_end-Extends :
      (offset : ℕ) (p : Parser) → HasRoom p → Extends p (parser (part_end c offset p))
  unfolding part_end
  part_end-Extends offset p h =
      same-Extends p (parser (part_end c offset p)) h (ground arith) (ground arith)
        (ground arith, ground arith)

  pub part_tagged_fields-Extends :
      (offset : ℕ) (p : Parser) → HasRoom p → Extends p (parser (part_tagged_fields c offset p))
  unfolding part_tagged_fields
  part_tagged_fields-Extends offset p h =
      let ended = λ (offset' : ℕ) (q : Parser) (k : HasRoom q).
        through-Extends q (enter partition_end q)
          (parser (part_end c offset' (enter partition_end q))) k refl refl (refl, refl)
          (part_end-Extends offset' (enter partition_end q)) in
      if-Extends (leb 12 c.api_version) p _ _
        (reading-Extends (skip_tagged_fields p.response c.skb offset c.data_end false) p _ h
          (tagged_fields-Keeps p.response c.skb offset c.data_end false)
          (λ offset' v q k. ended offset' q k))
        (ended offset p h)

  pub part_array_sized-Extends :
      (offset : ℕ) (p : Parser) → HasRoom p → Extends p (parser (part_array_sized c offset p))
  unfolding part_array_sized
  part_array_sized-Extends offset p h =
      let offset' = u32 (offset + p.response.record_batches_num_bytes) in
      let tagged = λ (q : Parser) (k : HasRoom q).
        through-Extends q (enter partition_tagged_fields q)
          (parser (part_tagged_fields c offset' (enter partition_tagged_fields q))) k refl refl
          (refl, refl) (part_tagged_fields-Extends offset' (enter partition_tagged_fields q)) in
      elim (Bool-cases (p.response.record_batches_num_bytes == 0)) [
        | inl e ↦ rw e (tagged p h)
        | inr e ↦
            elim (Bool-cases
              (leb max_record_batches_arrays p.response.record_batches_arrays_count)) [
                | inl f ↦ rw (e, f) (same-Extends p p h refl refl (refl, refl))
                | inr f ↦
                    let noted : Extends p (note_array c offset p) =
                      note_array-Extends c offset p h (ground arith) (ground arith) in
                    rw (e, f)
                      (Extends-trans p (note_array c offset p) _ noted (
                        tagged (note_array c offset p)
                          (Extends-HasRoom p (note_array c offset p) h noted)))
              ]
      ]

  pub part_array_start-Extends :
      (first : Bool) (offset : ℕ) (p : Parser)
      → HasRoom p
      → Extends p (parser (part_array_start c first offset p))
  unfolding part_array_start
  part_array_start-Extends first offset p h =
      if-Extends (leb max_record_batches_arrays p.response.record_batches_arrays_count) p _ _
        (same-Extends p _ h refl refl (refl, refl))
        (reading-Extends
          (read_varint_or_s32 (leb 12 c.api_version) p.response c.skb offset c.data_end first
            varint_bytes_0fffffff)
          p _ h
          (s32-Keeps (leb 12 c.api_version) p.response c.skb offset c.data_end first
            varint_bytes_0fffffff)
          (λ offset' v q k.
            through-Extends q
              (record q { response = record (q.response) { record_batches_num_bytes = u32 v } }) _ k
              refl refl (refl, refl)
              (part_array_sized-Extends offset' (record q {
                response = record (q.response) { record_batches_num_bytes = u32 v };
              }))))

  pub part_aborted_transactions-Extends :
      (first : Bool) (offset : ℕ) (p : Parser)
      → HasRoom p
      → Extends p (parser (part_aborted_transactions c first offset p))
  unfolding part_aborted_transactions
  part_aborted_transactions-Extends first offset p h =
      let started = λ (offset' : ℕ) (q : Parser) (k : HasRoom q).
        through-Extends q (enter record_batches_array_start q)
          (parser (part_array_start c first offset' (enter record_batches_array_start q))) k refl
          refl (refl, refl)
          (part_array_start-Extends first offset' (enter record_batches_array_start q)) in
      if-Extends (leb 4 c.api_version) p _ _
        (reading-Extends
          (read_varint_or_s32 (leb 12 c.api_version) p.response c.skb offset c.data_end first
            varint_bytes_3fff)
          p _ h
          (s32-Keeps (leb 12 c.api_version) p.response c.skb offset c.data_end first
            varint_bytes_3fff)
          (λ offset' v q k.
            if-Extends (neg64 v && not (v == 2 ^ 64 - 1)) q _ _
              (same-Extends q q k refl refl (refl, refl))
              (started (u32 (offset' + aborted_size c v)) q k)))
        (started offset p h)

  pub dispatch-Extends :
      (state : ResponseState) (first : Bool) (offset : ℕ) (p : Parser)
      → HasRoom p
      → Extends p (parser (dispatch state c first offset p))
  unfolding dispatch part_start
  dispatch-Extends partition_start first offset p h =
      through-Extends p (enter partition_aborted_transactions p) _ h refl refl (refl, refl)
        (part_aborted_transactions-Extends first (u32 (offset + partition_head_size c.api_version))
          (enter partition_aborted_transactions p))
  dispatch-Extends partition_aborted_transactions first offset p h =
      part_aborted_transactions-Extends first offset p h
  dispatch-Extends record_batches_array_start first offset p h =
      part_array_start-Extends first offset p h
  dispatch-Extends partition_tagged_fields first offset p h = part_tagged_fields-Extends offset p h
  dispatch-Extends partition_end first offset p h = part_end-Extends offset p h
  dispatch-Extends _ first offset p h = same-Extends p p h refl refl (refl, refl)
