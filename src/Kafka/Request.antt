-- ===== src/Kafka/Request.antt =====
-- ebpf/include/kafka_classification.h: how a Kafka request is recognised. The scratch buffers of
-- the one-entry array maps (`kafka_client_id`, `kafka_topic_name`) are always found, so a check
-- begins with a buffer of zeros.
pub mod Process
use erda_agent.Base.{
  ℕ, zero, suc, ◌+◌, ◌-◌, ◌*◌, ◌/◌, ◌%◌, ◌^◌, List, Option, none, some, Bool, true, false, not,
  ◌&&◌, ◌||◌, bit_or, ltb, leb, ◌==◌, if◌then◌else◌, u8, u16, u32, sub16, neg16, neg32, sext16_32,
  be, le, replicate, slice, get_or,
}
use erda_agent.Packet.{Skb, SkbInfo}
use erda_agent.Packet.Buffer.{read_big_endian, read_into_buffer}
use erda_agent.Kafka.Types.{
  KafkaHeader, kafka_produce, kafka_fetch, max_fetch_api_version, max_produce_api_version,
  header_size, client_id_size_to_validate, topic_name_max_string_size_to_validate,
  topic_name_max_allowed_size,
}
use erda_agent.Kafka.Reader.{is_msb_set}

infixl 5 ◌>>=◌
abbrev pub ◌>>=◌ {ℓ κ} : {A : Type ℓ} {B : Type κ} → Option A → (A → Option B) → Option B
none >>= f = none
some a >>= f = f a

-- `s > 0` and `s < -1` of an s16.
abbrev pub positive16 : ℕ → Bool
positive16 s = not (neg16 s) && not (s == 0)

abbrev pub below_minus_one16 : ℕ → Bool
below_minus_one16 s = neg16 s && not (s == 2 ^ 16 - 1)

-- The big-endian fields of the packed `kafka_header_t`, converted.
abbrev pub header_of : List ℕ → KafkaHeader
header_of bytes = record {
  message_size = be (slice 0 4 bytes);
  api_key = be (slice 4 2 bytes);
  api_version = be (slice 6 2 bytes);
  correlation_id = be (slice 8 4 bytes);
  client_id_size = be (slice 12 2 bytes);
}

abbrev pub is_topic_char : ℕ → Bool
is_topic_char ch =
    leb 97 ch && leb ch 122
    || leb 65 ch && leb ch 90
    || leb 48 ch && leb ch 57
    || ch == 46
    || ch == 95
    || ch == 45

abbrev pub is_printable : ℕ → Bool
is_printable ch = leb 32 ch && leb ch 126

-- `CHECK_STRING_COMPOSED_OF_ASCII`, on the rounds that are left and the buffer from `j` on.
unfoldable pub check_string : ℕ → ℕ → ℕ → Bool → List ℕ → Bool
check_string zero j real_size printable_ok buffer = true
check_string (suc rounds) j real_size printable_ok buffer =
    let rest = check_string rounds (j + 1) real_size printable_ok buffer in
    let ch = get_or buffer j 0 in
    if ltb real_size (j + 1)
    then true
    else if is_topic_char ch
    then rest
    else if printable_ok && is_printable ch
    then rest
    else false

-- `get_topic_offset_from_produce_request`; the result is `*out_offset`.
unfoldable pub get_topic_offset_from_produce_request : KafkaHeader → Skb → ℕ → Option ℕ
unfolding read_big_endian
get_topic_offset_from_produce_request h skb out_offset = do
  offset ←
      (if leb 3 h.api_version && not (neg16 h.api_version)
        then (do
          transactional_id_size ← read_big_endian 2 skb out_offset
          some (
              u32 (
                u32 (out_offset + 2)
                + (if positive16 transactional_id_size then transactional_id_size else 0))))
        else some out_offset)
  acks ← read_big_endian 2 skb offset
  timeout_ms ←
      (if ltb 1 acks && not (neg16 acks) || below_minus_one16 acks
        then none
        else read_big_endian 4 skb (u32 (offset + 2)))
  if neg32 timeout_ms then none else some (u32 (u32 (offset + 2) + 4))

-- `skip_request_tagged_fields`
unfoldable pub skip_request_tagged_fields : Skb → ℕ → Option ℕ
skip_request_tagged_fields skb offset =
    if get_or (skb.load_bytes offset (replicate 1 0)).1 0 0 == 0
    then some (u32 (offset + 1))
    else none

-- Behind the tagged fields: replica, wait, bytes, and in the versions that have them the most
-- bytes, the isolation level and the session.
abbrev pub fetch_fields_size : ℕ → ℕ
fetch_fields_size api_version =
    12
    + (if leb 3 api_version
        then 4 + (if leb 4 api_version then 1 + (if leb 7 api_version then 8 else 0) else 0)
        else 0)

-- `get_topic_offset_from_fetch_request`
unfoldable pub get_topic_offset_from_fetch_request : KafkaHeader → Skb → ℕ → Option ℕ
unfolding skip_request_tagged_fields
get_topic_offset_from_fetch_request h skb offset = do
  let api_version = sext16_32 h.api_version
  offset' ← if leb 12 api_version then skip_request_tagged_fields skb offset else some offset
  some (u32 (offset' + fetch_fields_size api_version))

-- `parse_varint_u16`: the value and the bytes it takes; `second` is the higher byte of `in`.
unfoldable pub parse_varint_u16 : ℕ → Option (ℕ × ℕ)
parse_varint_u16 raw =
    let first = raw % 256 in
    let second = raw / 256 in
    if is_msb_set first
    then (if is_msb_set second
        then none
        else some (sub16 (bit_or (first % 128) (second % 128 * 2 ^ 7)) 1, 2))
    else some (sub16 (first % 128) 1, 1)

-- `read_first_topic_name_size`: the size as an s16, and the offset behind it.
unfoldable pub read_first_topic_name_size : Skb → Bool → ℕ → ℕ × ℕ
unfolding parse_varint_u16
read_first_topic_name_size skb flexible offset =
    let raw = (skb.load_bytes offset (replicate 2 0)).1 in
    if flexible
    then elim (parse_varint_u16 (le raw)) [
      | none ↦ (0, offset)
      | some (size, bytes) ↦ (size, u32 (offset + bytes))
    ]
    else (be raw, u32 (offset + 2))

-- `is_valid_client_id`
unfoldable pub is_valid_client_id : Skb → ℕ → ℕ → Bool
unfolding check_string
is_valid_client_id skb offset real_client_id_size =
    check_string client_id_size_to_validate 0 real_client_id_size true
      (skb.load_bytes offset (replicate client_id_size_to_validate 0)).1

-- `is_valid_kafka_request_header`
unfoldable pub is_valid_kafka_request_header : KafkaHeader → Bool
is_valid_kafka_request_header h =
    if ltb h.message_size header_size || neg32 h.message_size
    then false
    else if neg16 h.api_version
    then false
    else if (if h.api_key == kafka_fetch
        then ltb max_fetch_api_version h.api_version
        else if h.api_key == kafka_produce
        then h.api_version == 0 || ltb max_produce_api_version h.api_version
        else true)
    then false
    else if neg32 h.correlation_id
    then false
    else not (below_minus_one16 h.client_id_size)

-- `skip_varint_number_of_topics`
unfoldable pub skip_varint_number_of_topics : Skb → ℕ → Option ℕ
skip_varint_number_of_topics skb offset =
    let bytes = (skb.load_bytes offset (replicate 2 0)).1 in
    if is_msb_set (get_or bytes 0 0)
    then (if is_msb_set (get_or bytes 1 0) then none else some (u32 (u32 (offset + 1) + 1)))
    else some (u32 (offset + 1))

abbrev pub bad_topic_name_size : ℕ → Bool
bad_topic_name_size size = not (positive16 size) || ltb topic_name_max_allowed_size size

-- `validate_first_topic_name`
unfoldable pub validate_first_topic_name : Skb → Bool → ℕ → Bool
unfolding check_string skip_varint_number_of_topics read_first_topic_name_size read_into_buffer
validate_first_topic_name skb flexible offset =
    elim (if flexible then skip_varint_number_of_topics skb offset else some (u32 (offset + 4))) [
      | none ↦ false
      | some offset' ↦
          let (size, offset2) = read_first_topic_name_size skb flexible offset' in
          if bad_topic_name_size size
          then false
          else check_string topic_name_max_string_size_to_validate 0 size false (
              read_into_buffer topic_name_max_string_size_to_validate skb offset2
                (replicate topic_name_max_string_size_to_validate 0))
    ]

-- `is_kafka_request`
unfoldable pub is_kafka_request : KafkaHeader → Skb → ℕ → Bool
unfolding validate_first_topic_name get_topic_offset_from_produce_request
    get_topic_offset_from_fetch_request
is_kafka_request h skb offset =
    if h.api_key == kafka_produce
    then elim (get_topic_offset_from_produce_request h skb offset) [
      | none ↦ false
      | some offset' ↦ validate_first_topic_name skb false offset'
    ]
    else if h.api_key == kafka_fetch
    then elim (get_topic_offset_from_fetch_request h skb offset) [
      | none ↦ false
      | some offset' ↦
          validate_first_topic_name skb (leb 12 h.api_version && not (neg16 h.api_version)) offset'
    ]
    else false

-- `is_kafka`, of a buffer that is not `NULL`.
unfoldable pub is_kafka : Skb → SkbInfo → List ℕ → ℕ → Bool
unfolding is_valid_kafka_request_header is_valid_client_id is_kafka_request
is_kafka skb info buf buf_size =
    let h = header_of buf in
    let offset = u32 (info.data_off + header_size) in
    if ltb buf_size header_size
    then false
    else if not (is_valid_kafka_request_header h)
    then false
    else if positive16 h.client_id_size && not (is_valid_client_id skb offset h.client_id_size)
    then false
    else if below_minus_one16 h.client_id_size
    then false
    else is_kafka_request h skb offset
