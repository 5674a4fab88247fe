-- ===== src/Kafka/Response/Program.antt =====
-- The two socket programs of ebpf/plugins/kafka/main.c. `bpf_tail_call` to the response parser is
-- the program itself on a smaller number of tail calls that are left; with none left the call
-- returns, as the kernel's limit on tail calls makes it.
pub mod Reset
pub mod Unbatched
pub mod Pairing
pub mod Order
use erda_agent.Base.{
  ℕ, zero, suc, ◌+◌, ◌-◌, ◌*◌, ◌%◌, ◌^◌, List, Option, none, some, Bool, true, false, not, ◌&&◌,
  ◌||◌, ltb, leb, ◌==◌, if◌then◌else◌, u32, sub32, neg32, Eq, nat_eq,
}
use erda_agent.Maps.{HashMap, lookup, update, update_noexist, delete, write}
use erda_agent.Packet.{
  Skb, SkbInfo, ConnTuple, zero_tuple, SockKey, tuple_eq, sock_key_eq, read_conn_tuple_skb,
}
use erda_agent.Packet.Tuple.{flip_tuple}
use erda_agent.Packet.Buffer.{read_big_endian}
use erda_agent.Kafka.Types.{
  ParseResult, ret_eop, ret_done, ret_err, ret_loop_end, ResponseContext, KafkaInfo, KafkaHeader,
  KafkaEvent, Transaction, TransactionKey, partition_start, zero_transaction, kafka_fetch,
}
use erda_agent.Kafka.Request.Process.{Parsed, rejected, accepted, parse_request}
use erda_agent.Kafka.Response.{
  Env, State, in_flight_key, key_of, is_tcp_termination, kafka_allow_packet, kafka_get_next_tcp_seq,
  kafka_batch_enqueue_wrapper, parser_state_to_level, Step, kafka_continue_parse_response,
}

-- One run of `socket__kafka_response_parser`: it ends, or it calls itself on the connection.
pub data Round : Type 0 where
  finished : State → Round
  calls : State → ConnTuple → ResponseContext → Round

-- The switch on the result. The context that `response` points to outlives its deletion.
unfoldable pub after_result : State → ConnTuple → ParseResult → ResponseContext → Round
unfolding delete update
after_result s tup ret_eop r = finished s
after_result s tup ret_err r = finished (record s { kafka_response = delete s.kafka_response tup })
after_result s tup ret_done r = finished (record s {
  kafka_response = delete s.kafka_response tup;
  kafka_event = update s.kafka_event (key_of tup) r.transaction;
})
after_result s tup ret_loop_end r = calls s tup r

parser_round : Env → Skb → State → Round
unfolding read_conn_tuple_skb lookup write parser_state_to_level kafka_continue_parse_response
    after_result
parser_round env skb s = elim (read_conn_tuple_skb skb zero_tuple) [
  | none ↦ finished s
  | some (info, tup) ↦ elim (lookup s.kafka_response tup) [
    | none ↦ finished s
    | some r ↦
        let step =
          kafka_continue_parse_response env skb s tup r info (parser_state_to_level r.state)
            r.transaction.request_api_version in
        after_result
          (record (step.state) {
            kafka_response = write step.state.kafka_response tup step.response;
          })
          tup step.result step.response
  ]
]

-- Behind a tail call that returned: the context is deleted, what was counted is enqueued.
call_failed : Env → State → ConnTuple → ResponseContext → State
unfolding delete update kafka_batch_enqueue_wrapper
call_failed env s tup r =
    let s1 = record s { kafka_response = delete s.kafka_response tup } in
    let (s2, t) =
      (if r.transaction.records_count == 0
        then (s1, r.transaction)
        else kafka_batch_enqueue_wrapper env s1 tup false r.transaction) in
    record s2 { kafka_event = update s2.kafka_event (key_of tup) t }

-- `socket__kafka_response_parser`, with the number of tail calls that are left.
unfoldable pub response_parser : Env → ℕ → Skb → State → State
unfolding parser_round call_failed
response_parser env zero skb s = elim (parser_round env skb s) [
  | finished s' ↦ s'
  | calls s' tup r ↦ call_failed env s' tup r
]
response_parser env (suc tail_calls) skb s = elim (parser_round env skb s) [
  | finished s' ↦ s'
  | calls s' tup r ↦ response_parser env tail_calls skb s'
]

-- `kafka_call_response_parser`, as the last call of a program.
unfoldable pub kafka_call_response_parser : Env → ℕ → ConnTuple → Skb → State → State
unfolding response_parser delete
kafka_call_response_parser env zero tup skb s = record s {
  kafka_response = delete s.kafka_response tup;
}
kafka_call_response_parser env (suc tail_calls) tup skb s = response_parser env tail_calls skb s

-- The request that is found, its key in the map, and the offset behind the correlation id, relative
-- to the payload: the id stands behind a message size, or at once.
unfoldable pub find_request : Skb → ConnTuple → ℕ → State → Option (ℕ × Transaction × ℕ)
unfolding read_big_endian lookup
find_request skb tup data_off s = elim (read_big_endian 4 skb (u32 (data_off + 4))) [
  | none ↦ none
  | some correlation_id ↦
      let key = in_flight_key (record { tuple = tup; correlation_id = correlation_id }) in
      elim (lookup s.kafka_in_flight key) [
        | some request ↦ some (key, request, 8)
        | none ↦ elim (read_big_endian 4 skb data_off) [
          | none ↦ none
          | some correlation_id2 ↦
              let key2 = in_flight_key (record { tuple = tup; correlation_id = correlation_id2 }) in
              elim (lookup s.kafka_in_flight key2) [
                | none ↦ none
                | some request ↦ some (key2, request, 4)
              ]
        ]
      ]
]

-- The state in which the parser is called.
unfoldable pub begin_response : ConnTuple → SkbInfo → State → ℕ → Transaction → ℕ → State
unfolding delete update kafka_get_next_tcp_seq
begin_response tup info s key request carry_over =
    let response = record (s.kafka.response) {
      transaction = request;
      state = partition_start;
      carry_over_offset = carry_over;
      expected_tcp_seq = kafka_get_next_tcp_seq info;
    } in
    record s {
      kafka = record (s.kafka) { response = response };
      kafka_in_flight = delete s.kafka_in_flight key;
      kafka_response = update s.kafka_response tup response;
    }

-- `kafka_process_new_response`: whether the packet was a response, and the state.
unfoldable pub kafka_process_new_response :
    Env → ℕ → ConnTuple → Skb → SkbInfo → State → Bool × State
unfolding find_request begin_response kafka_call_response_parser
kafka_process_new_response env tail_calls tup skb info s =
    elim (find_request skb tup info.data_off s) [
      | none ↦ (false, s)
      | some (key, request, carry_over) ↦ (
        true,
        kafka_call_response_parser env tail_calls tup skb
            (begin_response tup info s key request carry_over),
      )
    ]

-- A packet that is not the next one but is not an old one either: what was counted is enqueued, and
-- the response is given up.
unfoldable pub give_up_response : Env → ConnTuple → ResponseContext → State → State
unfolding delete kafka_batch_enqueue_wrapper
give_up_response env tup r s =
    let s' =
      (if r.transaction.records_count == 0
        then s
        else (kafka_batch_enqueue_wrapper env s tup false r.transaction).0) in
    record s' { kafka_response = delete s'.kafka_response tup }

-- `kafka_process_response`
unfoldable pub kafka_process_response : Env → ℕ → ConnTuple → Skb → SkbInfo → State → Bool × State
unfolding lookup write kafka_get_next_tcp_seq kafka_call_response_parser give_up_response
    kafka_process_new_response
kafka_process_response env tail_calls tup skb info s = elim (lookup s.kafka_response tup) [
  | none ↦ kafka_process_new_response env tail_calls tup skb info s
  | some r ↦ elim (info.tcp_seq == r.expected_tcp_seq) [
    | true ↦ (
      true,
      kafka_call_response_parser env tail_calls tup skb (record s {
        kafka_response =
            write s.kafka_response tup
              (record r { expected_tcp_seq = kafka_get_next_tcp_seq info });
      }),
    )
    | false ↦ elim (neg32 (sub32 info.tcp_seq r.expected_tcp_seq)) [
      | true ↦ (true, s)
      | false ↦
          kafka_process_new_response env tail_calls tup skb info (give_up_response env tup r s)
    ]
  ]
]

abbrev with_transaction : Transaction → State → State
with_transaction t s = record s {
  kafka = record (s.kafka) { event = record (s.kafka.event) { transaction = t } };
}

-- The end of `kafka_process`: a Fetch waits for its response under the flipped tuple.
unfoldable pub record_request : Env → ConnTuple → KafkaHeader → Transaction → State → State
unfolding update_noexist flip_tuple kafka_batch_enqueue_wrapper
record_request env tup h t s =
    if h.api_key == kafka_fetch
    then record s {
      kafka_in_flight =
          update_noexist s.kafka_in_flight
            (in_flight_key (record { tuple = flip_tuple tup; correlation_id = h.correlation_id }))
            t;
    }
    else (kafka_batch_enqueue_wrapper env s tup true t).0

-- `kafka_process`
unfoldable pub kafka_process : Env → ConnTuple → Skb → ℕ → State → Bool × State
unfolding parse_request record_request
kafka_process env tup skb offset s = elim (parse_request skb offset s.kafka.event.transaction) [
  | rejected t ↦ (false, with_transaction t s)
  | accepted h t ↦ (true, record_request env tup h t (with_transaction t s))
]

-- The beginning of the filter: the scratch transaction is cleared and stamped.
unfoldable pub begin_filter : Env → State → State
begin_filter env s =
    with_transaction (record zero_transaction { request_started = env.ktime s.clock_reads })
      (record s { clock_reads = s.clock_reads + 1 })

unfoldable pub forget_connection : ConnTuple → State → State
unfolding delete flip_tuple
forget_connection tup s = record s {
  kafka_response = delete (delete s.kafka_response tup) (flip_tuple tup);
}

-- `socket__kafka_filter`, with the number of tail calls that the kernel allows.
unfoldable pub socket_kafka_filter : Env → ℕ → Skb → State → State
unfolding begin_filter read_conn_tuple_skb kafka_allow_packet is_tcp_termination forget_connection
    kafka_process_response kafka_process
socket_kafka_filter env tail_calls skb s =
    let s0 = begin_filter env s in
    elim (read_conn_tuple_skb skb zero_tuple) [
      | none ↦ s0
      | some (info, tup) ↦ elim (kafka_allow_packet info) [
        | false ↦ s0
        | true ↦ elim (is_tcp_termination info) [
          | true ↦ forget_connection tup s0
          | false ↦
              let processed = kafka_process_response env tail_calls tup skb info s0 in
              elim processed.0 [
                | true ↦ processed.1
                | false ↦ (kafka_process env tup skb info.data_off processed.1).1
              ]
        ]
      ]
    ]
