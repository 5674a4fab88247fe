-- ===== src/Kafka/Batches.antt =====
-- `kafka_continue_parse_response_record_batches_loop` of ebpf/plugins/kafka/main.c. Each label of
-- its switch is a function that ends by calling the function of the label it falls through to.
pub mod Bounded
pub mod Count
pub mod Parse
pub mod Sequence
use erda_agent.Base.{
  ℕ, zero, suc, ◌+◌, ◌-◌, ◌^◌, List, Option, none, some, Bool, true, false, not, ◌&&◌, ◌||◌, ltb,
  leb, ◌==◌, if◌then◌else◌, u32, u64, sub32, neg32, sext32_64, get_or,
}
use erda_agent.Packet.{Skb}
use erda_agent.Packet.Buffer.{read_big_endian}
use erda_agent.Kafka.Types.{
  ResponseContext, ResponseState, ParseResult, ret_eop, ret_done, ret_err, ret_loop_end,
  BatchesArray, Transaction, max_record_batches_arrays, response_parser_max_iterations,
  record_batch_start, record_batch_length, record_batch_magic, record_batch_records_count,
  record_batch_end, record_batches_array_end,
}
use erda_agent.Kafka.Reader.{Reading, read_with_remainder}

-- What a round of a parser's loop does: it leaves the function, or the next round goes on.
pub data Flow : Type 0 where
  returns : ParseResult → ResponseContext → Flow
  continues : ℕ → ResponseContext → Flow

-- What stays the same during a call: the packet, its end, where the payload begins, and the arrays.
pub record Call : Type 0 where
  pub skb : Skb
  pub data_end : ℕ
  pub orig_offset : ℕ
  pub arrays : List BatchesArray

abbrev pub zero_array : BatchesArray
zero_array = record { num_bytes = 0; offset = 0 }

-- `case KAFKA_FETCH_RESPONSE_RECORD_BATCHES_ARRAY_END`
batches_array_end : Call → ℕ → ResponseContext → Flow
batches_array_end c offset response =
    let idx = u32 (response.record_batches_arrays_idx + 1) in
    let next = get_or c.arrays idx zero_array in
    if leb response.record_batches_arrays_count idx
    then returns ret_done (record response {
      record_batches_arrays_idx = idx;
      carry_over_offset = sub32 offset c.orig_offset;
    })
    else if leb max_record_batches_arrays idx
    then returns ret_err response
    else continues (u32 (next.offset + c.orig_offset)) (record response {
      record_batches_num_bytes = next.num_bytes;
      state = record_batch_start;
      record_batches_arrays_idx = idx;
    })

-- `record_batch_length + sizeof(u32) + sizeof(u64)` is taken off as an s32.
abbrev bytes_left : ResponseContext → ℕ
bytes_left response =
    sub32 response.record_batches_num_bytes (u32 (response.record_batch_length + 12))

-- `case KAFKA_FETCH_RESPONSE_RECORD_BATCH_END`
batch_end : Call → ℕ → ResponseContext → Flow
batch_end c offset response =
    let left = bytes_left response in
    let rest = record response { record_batches_num_bytes = left; record_batch_length = 0 } in
    if ltb c.data_end offset
    then returns ret_eop (record response { carry_over_offset = sub32 offset c.data_end })
    else if not (neg32 left) && not (left == 0)
    then continues offset (record rest { state = record_batch_start })
    else batches_array_end c offset rest

-- Signed `>=` where the left side is positive.
abbrev pos_ge : ℕ → ℕ → Bool
pos_ge a b = neg32 b || leb b a

-- `case KAFKA_FETCH_RESPONSE_RECORD_BATCH_RECORDS_COUNT`
batch_records_count : Call → Bool → ℕ → ResponseContext → Flow
batch_records_count c first offset response =
    let r = read_with_remainder response c.skb offset c.data_end first in
    let transaction = r.response.transaction in
    let counted = record transaction {
      records_count = u32 (transaction.records_count + r.value);
    } in
    elim r.result [
      | ret_done ↦
          if neg32 r.value || r.value == 0
          then returns ret_err r.response
          else if pos_ge r.value r.response.record_batch_length
          then returns ret_err r.response
          else batch_end c (u32 (r.offset + r.response.record_batch_length + 2 ^ 32 - 49))
              (record r.response { transaction = counted; state = record_batch_end })
      | result ↦ returns result r.response
    ]

-- `case KAFKA_FETCH_RESPONSE_RECORD_BATCH_MAGIC`. A read past the end returns `false`, which is
-- `RET_EOP` as a result of the parser.
batch_magic : Call → Bool → ℕ → ResponseContext → Flow
batch_magic c first offset response =
    if ltb c.data_end (offset + 1)
    then returns ret_eop (record response { carry_over_offset = sub32 offset c.data_end })
    else elim (read_big_endian 1 c.skb offset) [
      | none ↦ returns ret_eop response
      | some magic ↦
          if magic == 2
          then batch_records_count c first (u32 (offset + 41))
              (record response { state = record_batch_records_count })
          else returns ret_err response
    ]

-- A batch that does not fit the block may be one that the broker cut off, if it is the last one.
abbrev is_truncated : ResponseContext → Bool
is_truncated response =
    ltb 0 response.transaction.records_count
    && leb response.partitions_count 1
    && sub32 response.record_batches_arrays_count response.record_batches_arrays_idx == 1

-- The length has been read. The sizes are compared as u64.
batch_sized : Call → Bool → ℕ → ResponseContext → Flow
batch_sized c first offset response =
    let length = response.record_batch_length in
    if neg32 length || length == 0
    then returns ret_err response
    else if ltb (sext32_64 response.record_batches_num_bytes) (u64 (sext32_64 length + 12))
    then (if is_truncated response
        then continues offset (record response {
          record_batch_length = 0;
          record_batches_num_bytes = 0;
          state = record_batches_array_end;
        })
        else returns ret_err response)
    else batch_magic c first (u32 (offset + 4)) (record response { state = record_batch_magic })

-- `case KAFKA_FETCH_RESPONSE_RECORD_BATCH_LENGTH`
batch_length : Call → Bool → ℕ → ResponseContext → Flow
batch_length c first offset response =
    let r = read_with_remainder response c.skb offset c.data_end first in
    elim r.result [
      | ret_done ↦
          batch_sized c first r.offset (record r.response { record_batch_length = r.value })
      | result ↦ returns result r.response
    ]

-- `case KAFKA_FETCH_RESPONSE_RECORD_BATCH_START`
batch_start : Call → Bool → ℕ → ResponseContext → Flow
batch_start c first offset response =
    batch_length c first (u32 (offset + 8)) (record response { state = record_batch_length })

-- The switch, on `response->state`.
dispatch : ResponseState → Call → Bool → ℕ → ResponseContext → Flow
dispatch record_batch_start c first offset response = batch_start c first offset response
dispatch record_batch_length c first offset response = batch_length c first offset response
dispatch record_batch_magic c first offset response = batch_magic c first offset response
dispatch record_batch_records_count c first offset response =
    batch_records_count c first offset response
dispatch record_batch_end c first offset response = batch_end c offset response
dispatch record_batches_array_end c first offset response = batches_array_end c offset response
dispatch _ c first offset response = continues offset response

-- The loop, on the rounds that are left; `first` in the first one.
batches_rounds : ℕ → Call → Bool → ℕ → ResponseContext → ParseResult × ResponseContext
batches_rounds zero c first offset response =
    (ret_loop_end, record response { carry_over_offset = sub32 offset c.orig_offset })
batches_rounds (suc rounds) c first offset response =
    elim (dispatch response.state c first offset response) [
      | returns result response' ↦ (result, response')
      | continues offset' response' ↦ batches_rounds rounds c false offset' response'
    ]

-- `kafka_continue_parse_response_record_batches_loop`; `c.orig_offset` is its argument `offset`.
unfoldable pub record_batches_loop : Call → ResponseContext → ParseResult × ResponseContext
unfolding batches_rounds dispatch batch_start batch_length batch_sized batch_magic
    batch_records_count batch_end batches_array_end read_with_remainder read_big_endian
record_batches_loop c response =
    if neg32 response.carry_over_offset
    then (ret_err, response)
    else batches_rounds response_parser_max_iterations c true
        (u32 (c.orig_offset + response.carry_over_offset))
        (record response { carry_over_offset = 0 })
