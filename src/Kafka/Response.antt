-- ===== src/Kafka/Response.antt =====
-- The response side of the Kafka filter, ebpf/plugins/kafka/main.c: the state of the maps, how a
-- response is found, and the parser program that works on it.
pub mod Sequence
pub mod Unbatched
pub mod Program
use erda_agent.Base.{
  ℕ, zero, suc, ◌+◌, ◌-◌, ◌*◌, ◌%◌, ◌^◌, List, [], ◌∷◌, ◌++◌, Option, none, some, Bool, true, false,
  not, ◌&&◌, ◌||◌, ltb, leb, ◌==◌, if◌then◌else◌, u8, u32, sub32, sub64, neg32, take, drop, get_or,
  Eq, nat_eq,
}
use erda_agent.Maps.{HashMap, lookup, update, delete, write}
use erda_agent.Packet.{Skb, SkbInfo, ConnTuple, SockKey, tuple_eq, sock_key_eq}
use erda_agent.Packet.Tuple.{PortRange, normalize_tuple}
use erda_agent.Events.{Layout, Batches, batch_enqueue}
use erda_agent.Kafka.Types.{
  ParseResult, ret_eop, ret_done, ret_err, ret_loop_end, ResponseContext, ResponseState,
  state_index, KafkaInfo, KafkaEvent, Transaction, TransactionKey, start, num_topics,
  topic_name_size, num_partitions, partition_start, partition_aborted_transactions,
  record_batches_array_start, record_batch_start, record_batch_length, record_batch_magic,
  record_batch_records_count, record_batch_end, record_batches_array_end, partition_tagged_fields,
  partition_end,
}
use erda_agent.Kafka.Batches.{zero_array, record_batches_loop}
use erda_agent.Kafka.Batches
use erda_agent.Kafka.Partitions.{Parser, partition_loop}
use erda_agent.Kafka.Partitions

-- What the kernel and the loader give: the n-th reading of the clock, the ephemeral ports, and the
-- layout of the batches.
pub record Env : Type 0 where
  pub ktime : ℕ → ℕ
  pub ports : PortRange
  pub layout : Layout

-- The maps of parsing-maps.h, the batches, and how often the clock was read. `kafka_in_flight` is
-- declared with keys of type `__s32`.
pub record State : Type 0 where
  pub kafka : KafkaInfo
  pub kafka_in_flight : HashMap ℕ Transaction
  pub kafka_response : HashMap ConnTuple ResponseContext
  pub kafka_event : HashMap SockKey Transaction
  pub batches : Batches KafkaEvent
  pub clock_reads : ℕ

-- The four bytes that the kernel takes from a pointer to a `kafka_transaction_key_t` as the key:
-- those at its beginning, the lower half of `tuple.saddr_h`.
abbrev pub in_flight_key : TransactionKey → ℕ
in_flight_key key = key.tuple.saddr_h % 2 ^ 32

-- The lower halves of the addresses: `srcIP` and `dstIP` are 32 bits wide.
abbrev pub key_of : ConnTuple → SockKey
key_of tup = record {
  src_ip = u32 tup.saddr_l;
  dst_ip = u32 tup.daddr_l;
  src_port = tup.sport;
  dst_port = tup.dport;
}

unfoldable pub is_payload_empty : SkbInfo → Bool
is_payload_empty info = info.data_off == info.data_end

-- `tcp_flags & (TCPHDR_FIN | TCPHDR_RST)` is not 0: bit 0 or bit 2.
unfoldable pub is_tcp_termination : SkbInfo → Bool
is_tcp_termination info = not (info.tcp_flags % 2 == 0) || leb 4 (info.tcp_flags % 8)

unfoldable pub kafka_allow_packet : SkbInfo → Bool
unfolding is_payload_empty is_tcp_termination
kafka_allow_packet info = if is_payload_empty info then is_tcp_termination info else true

unfoldable pub kafka_get_next_tcp_seq : SkbInfo → ℕ
kafka_get_next_tcp_seq info = u32 (info.tcp_seq + sub32 info.data_end info.data_off)

-- `kafka_batch_enqueue_wrapper`: the state and `*transaction` afterwards. `own` is
-- `transaction == &event->transaction`; otherwise the event's copy is made before the start time
-- becomes a duration.
unfoldable pub kafka_batch_enqueue_wrapper :
    Env → State → ConnTuple → Bool → Transaction → State × Transaction
unfolding normalize_tuple update batch_enqueue
kafka_batch_enqueue_wrapper env s tup own transaction =
    let timed = record transaction {
      request_started = sub64 (env.ktime s.clock_reads) transaction.request_started;
    } in
    let event : KafkaEvent = record {
      tup = (normalize_tuple env.ports tup).0;
      transaction = if own then timed else transaction;
    } in
    (
      record s {
        kafka = record (s.kafka) { event = event };
        kafka_event = update s.kafka_event (key_of tup) timed;
        batches = batch_enqueue env.layout s.batches event;
        clock_reads = s.clock_reads + 1;
      },
      timed,
    )

-- `parser_level`
pub data ParserLevel : Type 0 where
  partition record_batch : ParserLevel

unfoldable pub parser_state_to_level : ResponseState → ParserLevel
parser_state_to_level start = partition
parser_state_to_level num_topics = partition
parser_state_to_level topic_name_size = partition
parser_state_to_level num_partitions = partition
parser_state_to_level partition_start = partition
parser_state_to_level partition_aborted_transactions = partition
parser_state_to_level record_batches_array_start = partition
parser_state_to_level record_batch_start = record_batch
parser_state_to_level record_batch_length = record_batch
parser_state_to_level record_batch_magic = record_batch
parser_state_to_level record_batch_records_count = record_batch
parser_state_to_level record_batch_end = record_batch
parser_state_to_level record_batches_array_end = record_batch
parser_state_to_level partition_tagged_fields = partition
parser_state_to_level partition_end = partition

-- What `kafka_continue_parse_response` leaves: its result, the state, and the context.
pub record Step : Type 0 where
  pub result : ParseResult
  pub state : State
  pub response : ResponseContext

-- The last bytes of the packet, the beginning of a number, are kept.
keep_remainder : Skb → ℕ → State → ℕ → ResponseContext → Step
keep_remainder skb data_end s n r = record {
  result = ret_eop;
  state = s;
  response = record r {
    remainder_buf =
        (skb.load_bytes (sub32 data_end n) (take n r.remainder_buf)).1 ++ drop n r.remainder_buf;
    remainder = n;
    carry_over_offset = 0;
  };
}

-- The end of the function where `ret` is `RET_EOP`.
unfoldable pub end_of_packet : Skb → ℕ → State → ResponseContext → Step
unfolding keep_remainder
end_of_packet skb data_end s r =
    if not (neg32 r.carry_over_offset)
    then record { result = ret_eop; state = s; response = r }
    else if r.carry_over_offset == 2 ^ 32 - 1
    then keep_remainder skb data_end s 1 r
    else if r.carry_over_offset == 2 ^ 32 - 2
    then keep_remainder skb data_end s 2 r
    else if r.carry_over_offset == 2 ^ 32 - 3
    then keep_remainder skb data_end s 3 r
    else record { result = ret_err; state = s; response = r }

enqueue_done : Env → State → ConnTuple → ResponseContext → Step
unfolding kafka_batch_enqueue_wrapper
enqueue_done env s tup r =
    let (s', t) = kafka_batch_enqueue_wrapper env s tup false r.transaction in
    record { result = ret_done; state = s'; response = record r { transaction = t } }

-- After the partition loop, with the state in which the arrays are written.
after_partitions : Env → Skb → ℕ → ConnTuple → State → ParseResult → ResponseContext → Step
unfolding enqueue_done end_of_packet
after_partitions env skb data_end tup s ret_err r = record {
  result = ret_err;
  state = s;
  response = r;
}
after_partitions env skb data_end tup s ret r =
    let first = get_or s.kafka.record_batches_arrays 0 zero_array in
    if not (r.record_batches_arrays_count == 0)
    then record {
      result = ret_loop_end;
      state = s;
      response = record r {
        varint_value = 0;
        varint_position = 0;
        partition_state = r.state;
        state = record_batch_start;
        record_batches_num_bytes = first.num_bytes;
        carry_over_offset = first.offset;
      };
    }
    else elim ret [
      | ret_done ↦ enqueue_done env s tup r
      | ret_eop ↦ end_of_packet skb data_end s r
      | other ↦ record { result = other; state = s; response = r }
    ]

after_batches : Env → Skb → ℕ → ConnTuple → State → ParseResult → ResponseContext → Step
unfolding enqueue_done end_of_packet
after_batches env skb data_end tup s ret_done r =
    if r.partitions_count == 0 then enqueue_done env s tup r else record {
      result = ret_loop_end;
      state = s;
      response = record r {
        partitions_count =
            if leb (state_index r.partition_state) (state_index record_batches_array_start)
            then u32 (r.partitions_count + 1)
            else r.partitions_count;
        state = partition_tagged_fields;
      };
    }
after_batches env skb data_end tup s ret_eop r =
    if r.record_batches_arrays_idx == sub32 r.record_batches_arrays_count 1
    then end_of_packet skb data_end s
        (record r { record_batches_arrays_idx = 0; record_batches_arrays_count = 1 })
    else record { result = ret_err; state = s; response = r }
after_batches env skb data_end tup s ret r = record { result = ret; state = s; response = r }

-- `kafka_continue_parse_response`
unfoldable pub kafka_continue_parse_response :
    Env → Skb → State → ConnTuple → ResponseContext → SkbInfo → ParserLevel → ℕ → Step
unfolding partition_loop record_batches_loop after_partitions after_batches state_index
kafka_continue_parse_response env skb s tup r info partition api_version =
    let (ret, p) =
      partition_loop
        (record {
          skb = skb;
          data_end = info.data_end;
          orig_offset = info.data_off;
          api_version = api_version;
        })
        (record {
          response = record r { record_batches_arrays_count = 0; record_batches_arrays_idx = 0 };
          arrays = s.kafka.record_batches_arrays;
        }) in
    after_partitions env skb info.data_end tup
      (record s { kafka = record (s.kafka) { record_batches_arrays = p.arrays } }) ret p.response
kafka_continue_parse_response env skb s tup r info record_batch api_version =
    let (ret, r') =
      record_batches_loop
        (record {
          skb = skb;
          data_end = info.data_end;
          orig_offset = info.data_off;
          arrays = s.kafka.record_batches_arrays;
        })
        r in
    after_batches env skb info.data_end tup s ret r'
