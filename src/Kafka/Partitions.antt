-- ===== src/Kafka/Partitions.antt =====
-- `kafka_continue_parse_response_partition_loop` of ebpf/plugins/kafka/main.c: the switch on the
-- response's header, and the loop over its partitions, which notes where the record batches are.
-- Each label is a function that ends by calling the function of the label it falls through to.
pub mod Extends
pub mod Parts
pub mod Bounds
use erda_agent.Base.{
  ℕ, zero, suc, ◌+◌, ◌-◌, ◌*◌, ◌^◌, List, Bool, true, false, not, ◌&&◌, ◌||◌, ltb, leb, ◌==◌,
  if◌then◌else◌, u32, sub32, neg32, neg64, set,
}
use erda_agent.Packet.{Skb}
use erda_agent.Kafka.Types.{
  ResponseContext, ResponseState, ParseResult, ret_eop, ret_done, ret_err, ret_loop_end,
  BatchesArray, max_record_batches_arrays, response_parser_max_iterations,
  topic_name_max_allowed_size, varint_bytes_3fff, varint_bytes_0fffffff, start, num_topics,
  topic_name_size, num_partitions, partition_start, partition_aborted_transactions,
  record_batches_array_start, record_batch_start, record_batch_length, record_batch_magic,
  record_batch_records_count, record_batch_end, record_batches_array_end, partition_tagged_fields,
  partition_end,
}
use erda_agent.Kafka.Reader.{Reading, read_varint_or_s16, read_varint_or_s32, skip_tagged_fields}

-- What the parser writes: the context and `kafka->record_batches_arrays`.
pub record Parser : Type 0 where
  pub response : ResponseContext
  pub arrays : List BatchesArray

pub data Flow : Type 0 where
  returns : ParseResult → Parser → Flow
  continues : ℕ → Parser → Flow

pub record Call : Type 0 where
  pub skb : Skb
  pub data_end : ℕ
  pub orig_offset : ℕ
  pub api_version : ℕ

abbrev pub flexible : Call → Bool
flexible c = leb 12 c.api_version

-- `value <= 0` of an s64.
abbrev pub not_positive : ℕ → Bool
not_positive v = neg64 v || v == 0

-- A part that reads: it returns what the read returned if that is not `RET_DONE`.
pub reading : Reading → Parser → (ℕ → ℕ → Parser → Flow) → Flow
reading r p next = elim r.result [
  | ret_done ↦ next r.offset r.value (record p { response = r.response })
  | result ↦ returns result (record p { response = r.response })
]

-- `case KAFKA_FETCH_RESPONSE_NUM_PARTITIONS`; the loop follows.
head_num_partitions : Call → ℕ → Parser → Flow
head_num_partitions c offset p =
    reading
      (read_varint_or_s32 (flexible c) p.response c.skb offset c.data_end true varint_bytes_3fff) p
      λ offset' value p'.
        if not_positive value
        then returns ret_err p'
        else continues offset' (record p' {
          response = record (p'.response) {
            partitions_count = u32 value;
            state = partition_start;
            record_batches_num_bytes = 0;
            record_batch_length = 0;
          };
        })

abbrev enter : ResponseState → Parser → Parser
enter s p = record p { response = record (p.response) { state = s } }

-- `case KAFKA_FETCH_RESPONSE_TOPIC_NAME_SIZE`
head_topic_name_size : Call → ℕ → Parser → Flow
head_topic_name_size c offset p =
    reading
      (read_varint_or_s16 (flexible c) p.response c.skb offset c.data_end true varint_bytes_3fff) p
      λ offset' value p'.
        if not_positive value || ltb topic_name_max_allowed_size value
        then returns ret_err p'
        else head_num_partitions c (u32 (offset' + value)) (enter num_partitions p')

-- `case KAFKA_FETCH_RESPONSE_NUM_TOPICS`
head_num_topics : Call → ℕ → Parser → Flow
head_num_topics c offset p =
    reading
      (read_varint_or_s32 (flexible c) p.response c.skb offset c.data_end true varint_bytes_3fff) p
      λ offset' value p'.
        if not_positive value
        then returns ret_err p'
        else head_topic_name_size c offset' (enter topic_name_size p')

-- The throttle time, the error code and the session id, in the versions that have them.
abbrev pub head_size : ℕ → ℕ
head_size api_version = (if leb 1 api_version then 4 else 0) + (if leb 7 api_version then 6 else 0)

head_start_rest : Call → ℕ → Parser → Flow
head_start_rest c offset p =
    head_num_topics c (u32 (offset + head_size c.api_version)) (enter num_topics p)

-- `case KAFKA_FETCH_RESPONSE_START`
head_start : Call → ℕ → Parser → Flow
head_start c offset p =
    if flexible c
    then reading (skip_tagged_fields p.response c.skb offset c.data_end true) p
        (λ offset' _ p'. head_start_rest c offset' p')
    else head_start_rest c offset p

-- The switch in front of the loop.
head : ResponseState → Call → ℕ → Parser → Flow
head start c offset p = head_start c offset p
head num_topics c offset p = head_num_topics c offset p
head topic_name_size c offset p = head_topic_name_size c offset p
head num_partitions c offset p = head_num_partitions c offset p
head _ c offset p = continues offset p

-- `case KAFKA_FETCH_RESPONSE_PARTITION_END`
pub part_end : Call → ℕ → Parser → Flow
part_end c offset p =
    let left = sub32 p.response.partitions_count 1 in
    let counted = record (p.response) { partitions_count = left } in
    if ltb c.data_end offset
    then returns ret_eop (record p {
      response = record (p.response) { carry_over_offset = sub32 offset c.data_end };
    })
    else if left == 0
    then returns ret_done (record p { response = counted })
    else continues offset (record p { response = record counted { state = partition_start } })

-- `case KAFKA_FETCH_RESPONSE_PARTITION_TAGGED_FIELDS`
pub part_tagged_fields : Call → ℕ → Parser → Flow
part_tagged_fields c offset p =
    if flexible c
    then reading (skip_tagged_fields p.response c.skb offset c.data_end false) p
        (λ offset' _ p'. part_end c offset' (enter partition_end p'))
    else part_end c offset (enter partition_end p)

-- A block of record batches that is not empty is noted in the next free entry.
pub note_array : Call → ℕ → Parser → Parser
note_array c offset p =
    let idx = p.response.record_batches_arrays_count in
    record {
      response = record (p.response) { record_batches_arrays_count = u32 (idx + 1) };
      arrays = set p.arrays idx (record {
        num_bytes = p.response.record_batches_num_bytes;
        offset = sub32 offset c.orig_offset;
      });
    }

-- Behind the size of the block, which is in the context.
pub part_array_sized : Call → ℕ → Parser → Flow
part_array_sized c offset p =
    let offset' = u32 (offset + p.response.record_batches_num_bytes) in
    if p.response.record_batches_num_bytes == 0
    then part_tagged_fields c offset' (enter partition_tagged_fields p)
    else if leb max_record_batches_arrays p.response.record_batches_arrays_count
    then returns ret_err p
    else part_tagged_fields c offset' (enter partition_tagged_fields (note_array c offset p))

-- `case KAFKA_FETCH_RESPONSE_RECORD_BATCHES_ARRAY_START`; `goto exit` where the entries are used up.
pub part_array_start : Call → Bool → ℕ → Parser → Flow
part_array_start c first offset p =
    if leb max_record_batches_arrays p.response.record_batches_arrays_count
    then returns ret_loop_end (record p {
      response = record (p.response) { carry_over_offset = sub32 offset c.orig_offset };
    })
    else reading
        (read_varint_or_s32 (flexible c) p.response c.skb offset c.data_end first
          varint_bytes_0fffffff)
        p
        λ offset' value p'.
          part_array_sized c offset'
            (record p' { response = record (p'.response) { record_batches_num_bytes = u32 value } })

-- The aborted transactions, and the preferred read replica.
abbrev pub aborted_size : Call → ℕ → ℕ
aborted_size c aborted =
    (if neg64 aborted then 0 else (if flexible c then 17 else 16) * aborted)
    + (if leb 11 c.api_version then 4 else 0)

-- `case KAFKA_FETCH_RESPONSE_PARTITION_ABORTED_TRANSACTIONS`; -1 is an empty list too.
pub part_aborted_transactions : Call → Bool → ℕ → Parser → Flow
part_aborted_transactions c first offset p =
    if leb 4 c.api_version
    then reading
        (read_varint_or_s32 (flexible c) p.response c.skb offset c.data_end first varint_bytes_3fff)
        p
        (λ offset' value p'.
          if neg64 value && not (value == 2 ^ 64 - 1)
          then returns ret_err p'
          else part_array_start c first (u32 (offset' + aborted_size c value))
              (enter record_batches_array_start p'))
    else part_array_start c first offset (enter record_batches_array_start p)

-- The partition index, the error code, the high watermark, and in the versions that have them the
-- last stable offset and the log's start offset.
abbrev pub partition_head_size : ℕ → ℕ
partition_head_size api_version =
    14 + (if leb 4 api_version then 8 else 0) + (if leb 5 api_version then 8 else 0)

-- `case KAFKA_FETCH_RESPONSE_PARTITION_START`
part_start : Call → Bool → ℕ → Parser → Flow
part_start c first offset p =
    part_aborted_transactions c first (u32 (offset + partition_head_size c.api_version))
      (enter partition_aborted_transactions p)

-- The switch of the loop.
pub dispatch : ResponseState → Call → Bool → ℕ → Parser → Flow
dispatch start c first offset p = continues offset p
dispatch num_topics c first offset p = continues offset p
dispatch topic_name_size c first offset p = continues offset p
dispatch num_partitions c first offset p = continues offset p
dispatch partition_start c first offset p = part_start c first offset p
dispatch partition_aborted_transactions c first offset p =
    part_aborted_transactions c first offset p
dispatch record_batches_array_start c first offset p = part_array_start c first offset p
dispatch partition_tagged_fields c first offset p = part_tagged_fields c offset p
dispatch partition_end c first offset p = part_end c offset p
dispatch _ c first offset p = returns ret_err p

-- The loop, on the rounds that are left; `first` in the first one.
partition_rounds : ℕ → Call → Bool → ℕ → Parser → ParseResult × Parser
partition_rounds zero c first offset p = (
  ret_loop_end,
  record p { response = record (p.response) { carry_over_offset = sub32 offset c.orig_offset } },
)
partition_rounds (suc rounds) c first offset p = elim (dispatch p.response.state c first offset p) [
  | returns result p' ↦ (result, p')
  | continues offset' p' ↦ partition_rounds rounds c false offset' p'
]

-- The loop behind the switch on the header.
after_head : Call → Flow → ParseResult × Parser
after_head c (returns result p) = (result, p)
after_head c (continues offset p) = partition_rounds response_parser_max_iterations c true offset p

-- `kafka_continue_parse_response_partition_loop`; `c.orig_offset` is its argument `offset`.
unfoldable pub partition_loop : Call → Parser → ParseResult × Parser
unfolding after_head partition_rounds dispatch part_start part_aborted_transactions part_array_start
    part_array_sized note_array part_tagged_fields part_end head head_start head_start_rest
    head_num_topics head_topic_name_size head_num_partitions reading read_varint_or_s16
    read_varint_or_s32 skip_tagged_fields
partition_loop c p =
    let begun = record p { response = record (p.response) { carry_over_offset = 0 } } in
    if neg32 p.response.carry_over_offset
    then (ret_err, p)
    else after_head c
        (head p.response.state c (u32 (c.orig_offset + p.response.carry_over_offset)) begun)
