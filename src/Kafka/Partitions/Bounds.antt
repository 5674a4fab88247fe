-- ===== src/Kafka/Partitions/Bounds.antt =====
-- Where `kafka_continue_parse_response_partition_loop` writes into `kafka->record_batches_arrays`.
use erda_agent.Base.{
  ℕ, zero, suc, ◌+◌, ◌≤◌, ◌≡◌, refl, Bool-cases, inl, inr, Bool, true, false, ◌||◌, ltb, leb, ◌==◌,
  u32, neg32, neg64, length,
}
use erda_agent.Kafka.Types.{
  ResponseState, ParseResult, max_record_batches_arrays, response_parser_max_iterations,
  topic_name_max_allowed_size, varint_bytes_3fff, start, num_topics, topic_name_size,
  num_partitions,
}
use erda_agent.Kafka.Reader.{read_varint_or_s16, read_varint_or_s32, skip_tagged_fields}
use erda_agent.Kafka.Reader.Keeps.{tagged_fields-Keeps, s16-Keeps, s32-Keeps}
use erda_agent.Kafka.Partitions.{
  Parser, head_size, enter, Flow, returns, continues, Call, head_num_partitions,
  head_topic_name_size, head_num_topics, head_start_rest, head_start, head, dispatch,
  partition_rounds, after_head, partition_loop,
}
use erda_agent.Kafka.Partitions.Extends.{
  Extends, HasRoom, parser, same-Extends, Extends-trans, Extends-HasRoom, reading-Extends,
  if-Extends, through-Extends,
}
use erda_agent.Kafka.Partitions.Parts.{dispatch-Extends}

module _ (c : Call) where
  head_num_partitions-Extends :
      (offset : ℕ) (p : Parser) → HasRoom p → Extends p (parser (head_num_partitions c offset p))
  unfolding head_num_partitions
  head_num_partitions-Extends offset p h =
      reading-Extends
        (read_varint_or_s32 (leb 12 c.api_version) p.response c.skb offset c.data_end true
          varint_bytes_3fff)
        p _ h
        (s32-Keeps (leb 12 c.api_version) p.response c.skb offset c.data_end true varint_bytes_3fff)
        (λ offset' v q k.
          if-Extends (neg64 v || v == 0) q _ _ (same-Extends q q k refl refl (refl, refl))
            (same-Extends q _ k refl refl (refl, refl)))

  head_topic_name_size-Extends :
      (offset : ℕ) (p : Parser) → HasRoom p → Extends p (parser (head_topic_name_size c offset p))
  unfolding head_topic_name_size
  head_topic_name_size-Extends offset p h =
      reading-Extends
        (read_varint_or_s16 (leb 12 c.api_version) p.response c.skb offset c.data_end true
          varint_bytes_3fff)
        p _ h
        (s16-Keeps (leb 12 c.api_version) p.response c.skb offset c.data_end true varint_bytes_3fff)
        (λ offset' v q k.
          if-Extends ((neg64 v || v == 0) || ltb topic_name_max_allowed_size v) q _ _
            (same-Extends q q k refl refl (refl, refl))
            (through-Extends q (enter num_partitions q) _ k refl refl (refl, refl)
              (head_num_partitions-Extends (u32 (offset' + v)) (enter num_partitions q))))

  head_num_topics-Extends :
      (offset : ℕ) (p : Parser) → HasRoom p → Extends p (parser (head_num_topics c offset p))
  unfolding head_num_topics
  head_num_topics-Extends offset p h =
      reading-Extends
        (read_varint_or_s32 (leb 12 c.api_version) p.response c.skb offset c.data_end true
          varint_bytes_3fff)
        p _ h
        (s32-Keeps (leb 12 c.api_version) p.response c.skb offset c.data_end true varint_bytes_3fff)
        (λ offset' v q k.
          if-Extends (neg64 v || v == 0) q _ _ (same-Extends q q k refl refl (refl, refl)) (
            through-Extends q (enter topic_name_size q) _ k refl refl (refl, refl)
              (head_topic_name_size-Extends offset' (enter topic_name_size q))))

  head_start-Extends :
      (offset : ℕ) (p : Parser) → HasRoom p → Extends p (parser (head_start c offset p))
  unfolding head_start head_start_rest
  head_start-Extends offset p h =
      let rest = λ (offset' : ℕ) (q : Parser) (k : HasRoom q).
        through-Extends q (enter num_topics q)
          (parser
            (head_num_topics c (u32 (offset' + head_size c.api_version)) (enter num_topics q)))
          k refl refl (refl, refl)
          (head_num_topics-Extends (u32 (offset' + head_size c.api_version))
            (enter num_topics q)) in
      if-Extends (leb 12 c.api_version) p _ _
        (reading-Extends (skip_tagged_fields p.response c.skb offset c.data_end true) p _ h
          (tagged_fields-Keeps p.response c.skb offset c.data_end true)
          (λ offset' v q k. rest offset' q k))
        (rest offset p h)

  head-Extends :
      (state : ResponseState) (offset : ℕ) (p : Parser)
      → HasRoom p
      → Extends p (parser (head state c offset p))
  unfolding head
  head-Extends start offset p h = head_start-Extends offset p h
  head-Extends num_topics offset p h = head_num_topics-Extends offset p h
  head-Extends topic_name_size offset p h = head_topic_name_size-Extends offset p h
  head-Extends num_partitions offset p h = head_num_partitions-Extends offset p h
  head-Extends _ offset p h = same-Extends p p h refl refl (refl, refl)

  -- What a round does with the flow that the switch gave.
  next_round : ℕ → Flow → ParseResult × Parser
  next_round rounds f = elim f [
    | returns result p' ↦ (result, p')
    | continues offset' p' ↦ partition_rounds rounds c false offset' p'
  ]

  next_round-Extends :
      (rounds : ℕ)
      → ((first : Bool) (offset : ℕ) (q : Parser)
          → HasRoom q
          → Extends q (partition_rounds rounds c first offset q).1)
      → (p : Parser) (f : Flow) → HasRoom p
      → Extends p (parser f)
      → Extends p (next_round rounds f).1
  unfolding next_round
  next_round-Extends rounds ih p (returns result q) h e = e
  next_round-Extends rounds ih p (continues offset q) h e =
      Extends-trans p q _ e (ih false offset q (Extends-HasRoom p q h e))

  rounds-Extends :
      (rounds : ℕ) (first : Bool) (offset : ℕ) (p : Parser)
      → HasRoom p
      → Extends p (partition_rounds rounds c first offset p).1
  unfolding partition_rounds next_round
  rounds-Extends zero first offset p h = same-Extends p _ h refl refl (refl, refl)
  rounds-Extends (suc rounds) first offset p h =
      next_round-Extends rounds (rounds-Extends rounds) p
        (dispatch p.response.state c first offset p) h
        (dispatch-Extends c p.response.state first offset p h)

  after_head-Extends :
      (p : Parser) (f : Flow) → HasRoom p → Extends p (parser f) → Extends p (after_head c f).1
  unfolding after_head
  after_head-Extends p (returns result q) h e = e
  after_head-Extends p (continues offset q) h e =
      Extends-trans p q _ e
        (rounds-Extends response_parser_max_iterations true offset q (Extends-HasRoom p q h e))

-- A call of the partition loop, with an array of 50 entries of which at most 50 are noted: whatever
-- the packet holds and however the call ends, at most 50 are noted after it, those that were noted
-- before are as they were, each new one is of a block with at least one byte, and every entry behind
-- them, like the length of the array, the transaction and the sequence number that is expected, is
-- as it was. So each write is within the array, and no record is counted here.
pub partition_loop-Extends :
    (c : Call) (p : Parser)
    → length p.arrays ≡ max_record_batches_arrays
    → p.response.record_batches_arrays_count ≤ max_record_batches_arrays
    → Extends p (partition_loop c p).1
unfolding partition_loop
partition_loop-Extends c p size room =
    let h : HasRoom p = (size, room) in
    let begun : Parser = record p { response = record (p.response) { carry_over_offset = 0 } } in
    elim (Bool-cases (neg32 p.response.carry_over_offset)) [
      | inl e ↦ rw e (same-Extends p p h refl refl (refl, refl))
      | inr e ↦ rw e (
          through-Extends p begun _ h refl refl (refl, refl)
            (λ k.
              after_head-Extends c begun
                (head p.response.state c (u32 (c.orig_offset + p.response.carry_over_offset)) begun)
                k
                (head-Extends c p.response.state
                  (u32 (c.orig_offset + p.response.carry_over_offset)) begun k)))
    ]
