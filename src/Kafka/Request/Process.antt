-- ===== src/Kafka/Request/Process.antt =====
-- The parse of a request in `kafka_process` of ebpf/plugins/kafka/main.c, up to the stores that
-- record it.
pub mod Accepts
use erda_agent.Base.{
  ℕ, zero, suc, ◌+◌, ◌-◌, ◌*◌, ◌^◌, List, Option, none, some, Bool, true, false, not, ◌&&◌, ◌||◌,
  ltb, leb, ◌==◌, if◌then◌else◌, u8, u32, neg16, neg32, replicate, get_or,
}
use erda_agent.Packet.{Skb}
use erda_agent.Packet.Buffer.{read_big_endian, read_into_buffer}
use erda_agent.Kafka.Types.{
  KafkaHeader, Transaction, kafka_produce, kafka_fetch, header_size,
  topic_name_max_string_size_to_validate, topic_name_max_string_size,
}
use erda_agent.Kafka.Request.{
  ◌>>=◌, positive16, below_minus_one16, header_of, is_topic_char,
  get_topic_offset_from_produce_request, get_topic_offset_from_fetch_request,
  read_first_topic_name_size, is_valid_client_id, is_valid_kafka_request_header,
  skip_varint_number_of_topics, bad_topic_name_size,
}

-- Whether the request is rejected, and the transaction of the scratch space as it was written.
pub data Parsed : Type 0 where
  rejected : Transaction → Parsed
  accepted : KafkaHeader → Transaction → Parsed

-- `CHECK_STRING_COMPOSED_OF_ASCII_FOR_PARSING`, on the rounds that are left.
unfoldable pub check_string_for_parsing : ℕ → ℕ → ℕ → List ℕ → Bool
check_string_for_parsing zero j real_size buffer = true
check_string_for_parsing (suc rounds) j real_size buffer =
    let rest = check_string_for_parsing rounds (j + 1) real_size buffer in
    if leb (j + 1) real_size
    then (if is_topic_char (get_or buffer j 0) then rest else false)
    else rest

-- `case KAFKA_PRODUCE` of the second switch: one partition, whose batch has the magic 2.
unfoldable pub read_records_count : Skb → ℕ → Option ℕ
unfolding read_big_endian
read_records_count skb offset = do
  number_of_partitions ← read_big_endian 4 skb offset
  magic_byte ←
      (if neg32 number_of_partitions || number_of_partitions == 0 || ltb 1 number_of_partitions
        then none
        else read_big_endian 1 skb (u32 (offset + 28)))
  records_count ←
      (if magic_byte == 2 then read_big_endian 4 skb (u32 (offset + 28 + 1 + 40)) else none)
  if neg32 records_count || records_count == 0 then none else some records_count

-- The second switch.
parse_records : Skb → ℕ → KafkaHeader → Transaction → Parsed
unfolding read_records_count
parse_records skb offset h t =
    if h.api_key == kafka_produce
    then elim (read_records_count skb offset) [
      | none ↦ rejected t
      | some records_count ↦ accepted h (record t { records_count = records_count })
    ]
    else if h.api_key == kafka_fetch
    then accepted h (record t { records_count = 0 })
    else rejected t

-- The first topic's name: at most 80 bytes of it are kept, and the first 48 are checked.
parse_topic_name : Skb → ℕ → ℕ → KafkaHeader → Transaction → Parsed
unfolding check_string_for_parsing parse_records read_into_buffer
parse_topic_name skb size offset h t =
    let t' = record t {
      topic_name =
          read_into_buffer topic_name_max_string_size skb offset
            (replicate topic_name_max_string_size 0);
      topic_name_size = size;
    } in
    if bad_topic_name_size size
    then rejected t
    else if check_string_for_parsing topic_name_max_string_size_to_validate 0 size t'.topic_name
    then parse_records skb (u32 (offset + size)) h t'
    else rejected t'

unfoldable pub skip_number_of_topics : Skb → Bool → ℕ → Option (Bool × ℕ)
unfolding skip_varint_number_of_topics
skip_number_of_topics skb true offset = do
  offset' ← skip_varint_number_of_topics skb offset
  some (true, offset')
skip_number_of_topics skb false offset = some (false, u32 (offset + 4))

-- The first switch: the offset behind the number of topics, and whether the rest is flexible.
unfoldable pub topic_offset : Skb → ℕ → KafkaHeader → Option (Bool × ℕ)
unfolding get_topic_offset_from_produce_request get_topic_offset_from_fetch_request
    skip_number_of_topics
topic_offset skb offset h =
    if h.api_key == kafka_produce
    then get_topic_offset_from_produce_request h skb offset >>= skip_number_of_topics skb false
    else if h.api_key == kafka_fetch
    then get_topic_offset_from_fetch_request h skb offset
      >>= skip_number_of_topics skb (leb 12 h.api_version && not (neg16 h.api_version))
    else none

parse_body : Skb → ℕ → KafkaHeader → Transaction → Parsed
unfolding topic_offset read_first_topic_name_size parse_topic_name
parse_body skb offset h t = elim (topic_offset skb offset h) [
  | none ↦ rejected t
  | some (flexible, offset') ↦
      let (size, offset2) = read_first_topic_name_size skb flexible offset' in
      parse_topic_name skb size offset2 h t
]

parse_client_id : Skb → ℕ → KafkaHeader → Transaction → Parsed
unfolding is_valid_client_id parse_body
parse_client_id skb offset h t =
    if positive16 h.client_id_size
    then (if is_valid_client_id skb offset h.client_id_size
        then parse_body skb (u32 (offset + h.client_id_size)) h t
        else rejected t)
    else if below_minus_one16 h.client_id_size
    then rejected t
    else parse_body skb offset h t

-- `kafka_process` up to the stores; `t` is `kafka->event.transaction`.
unfoldable pub parse_request : Skb → ℕ → Transaction → Parsed
unfolding is_valid_kafka_request_header parse_client_id
parse_request skb offset t =
    let h = header_of (skb.load_bytes offset (replicate header_size 0)).1 in
    if is_valid_kafka_request_header h
    then parse_client_id skb (u32 (offset + header_size)) h
        (record t { request_api_key = u8 h.api_key; request_api_version = u8 h.api_version })
    else rejected t
