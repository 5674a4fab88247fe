-- ===== src/Kafka/Types.antt =====
-- ebpf/include/kafka_types.h and kafka_defs.h: the records of the Kafka filter, and its constants.
use erda_agent.Base.{ℕ, List, replicate}
use erda_agent.Packet.{ConnTuple, zero_tuple}

-- `enum parse_result`
pub data ParseResult : Type 0 where
  ret_eop ret_done ret_err ret_loop_end : ParseResult

-- `kafka_response_state`, in the order of the enumeration.
pub data ResponseState : Type 0 where
  start num_topics topic_name_size num_partitions : ResponseState
  partition_start partition_aborted_transactions record_batches_array_start : ResponseState
  record_batch_start record_batch_length record_batch_magic : ResponseState
  record_batch_records_count record_batch_end record_batches_array_end : ResponseState
  partition_tagged_fields partition_end : ResponseState

-- The number of a state in the enumeration.
unfoldable pub state_index : ResponseState → ℕ
state_index start = 0
state_index num_topics = 1
state_index topic_name_size = 2
state_index num_partitions = 3
state_index partition_start = 4
state_index partition_aborted_transactions = 5
state_index record_batches_array_start = 6
state_index record_batch_start = 7
state_index record_batch_length = 8
state_index record_batch_magic = 9
state_index record_batch_records_count = 10
state_index record_batch_end = 11
state_index record_batches_array_end = 12
state_index partition_tagged_fields = 13
state_index partition_end = 14

pub record KafkaHeader : Type 0 where
  pub message_size : ℕ
  pub api_key : ℕ
  pub api_version : ℕ
  pub correlation_id : ℕ
  pub client_id_size : ℕ

pub record Transaction : Type 0 where
  pub request_started : ℕ
  pub records_count : ℕ
  pub request_api_key : ℕ
  pub request_api_version : ℕ
  pub topic_name_size : ℕ
  pub topic_name : List ℕ

pub record KafkaEvent : Type 0 where
  pub tup : ConnTuple
  pub transaction : Transaction

pub record TransactionKey : Type 0 where
  pub tuple : ConnTuple
  pub correlation_id : ℕ

pub record ResponseContext : Type 0 where
  pub state : ResponseState
  pub remainder : ℕ
  pub varint_position : ℕ
  pub partition_state : ResponseState
  pub remainder_buf : List ℕ
  pub record_batches_num_bytes : ℕ
  pub record_batch_length : ℕ
  pub expected_tcp_seq : ℕ
  pub carry_over_offset : ℕ
  pub partitions_count : ℕ
  pub varint_value : ℕ
  pub record_batches_arrays_idx : ℕ
  pub record_batches_arrays_count : ℕ
  pub transaction : Transaction

pub record BatchesArray : Type 0 where
  pub num_bytes : ℕ
  pub offset : ℕ

-- `kafka_info_t`, the scratch space of the filter (`kafka_heap`).
pub record KafkaInfo : Type 0 where
  pub response : ResponseContext
  pub event : KafkaEvent
  pub record_batches_arrays : List BatchesArray

abbrev pub kafka_produce : ℕ
kafka_produce = 0

abbrev pub kafka_fetch : ℕ
kafka_fetch = 1

abbrev pub max_fetch_api_version : ℕ
max_fetch_api_version = 11

abbrev pub max_produce_api_version : ℕ
max_produce_api_version = 8

-- `sizeof(kafka_header_t)`, which is packed.
abbrev pub header_size : ℕ
header_size = 14

abbrev pub client_id_size_to_validate : ℕ
client_id_size_to_validate = 15

abbrev pub topic_name_max_string_size_to_validate : ℕ
topic_name_max_string_size_to_validate = 48

abbrev pub topic_name_max_allowed_size : ℕ
topic_name_max_allowed_size = 255

abbrev pub topic_name_max_string_size : ℕ
topic_name_max_string_size = 80

abbrev pub varint_bytes_3fff : ℕ
varint_bytes_3fff = 2

abbrev pub varint_bytes_0fffffff : ℕ
varint_bytes_0fffffff = 4

abbrev pub response_parser_max_iterations : ℕ
response_parser_max_iterations = 10

abbrev pub max_record_batches_arrays : ℕ
max_record_batches_arrays = 50

abbrev pub zero_transaction : Transaction
zero_transaction = record {
  request_started = 0;
  records_count = 0;
  request_api_key = 0;
  request_api_version = 0;
  topic_name_size = 0;
  topic_name = replicate topic_name_max_string_size 0;
}

abbrev pub zero_response : ResponseContext
zero_response = record {
  state = start;
  remainder = 0;
  varint_position = 0;
  partition_state = start;
  remainder_buf = replicate 4 0;
  record_batches_num_bytes = 0;
  record_batch_length = 0;
  expected_tcp_seq = 0;
  carry_over_offset = 0;
  partitions_count = 0;
  varint_value = 0;
  record_batches_arrays_idx = 0;
  record_batches_arrays_count = 0;
  transaction = zero_transaction;
}

abbrev pub zero_info : KafkaInfo
zero_info = record {
  response = zero_response;
  event = record { tup = zero_tuple; transaction = zero_transaction };
  record_batches_arrays =
      replicate max_record_batches_arrays (record { num_bytes = 0; offset = 0 });
}
