-- ===== src/Kafka/Response/Program/Unbatched.antt =====
-- The batches of the Kafka filter stay as they were declared.
use erda_agent.Base.{
  ℕ, zero, suc, ◌≡◌, if◌then◌else◌, List, [], ◌∷◌, Bool, true, false, ◌==◌, neg32, sub32,
  Option-cases, Bool-cases, inl, inr, nat_eq,
}
use erda_agent.Maps.{lookup, write}
use erda_agent.Packet.{
  Skb, SkbInfo, ConnTuple, zero_tuple, tuple_eq, sock_key_eq, read_conn_tuple_skb,
}
use erda_agent.Events.{initial_batches, BatchData, batch_flush}
use erda_agent.Events.First.{flush_initial}
use erda_agent.Kafka.Types.{
  ParseResult, ret_eop, ret_done, ret_err, ret_loop_end, ResponseContext, KafkaEvent, KafkaHeader,
  Transaction, kafka_fetch,
}
use erda_agent.Kafka.Request.Process.{Parsed, rejected, accepted, parse_request}
use erda_agent.Kafka.Response.{
  Env, State, kafka_allow_packet, kafka_get_next_tcp_seq, is_tcp_termination,
  kafka_batch_enqueue_wrapper, parser_state_to_level, kafka_continue_parse_response,
}
use erda_agent.Kafka.Response.Program.{
  Round, finished, calls, after_result, parser_round, call_failed, response_parser,
  kafka_call_response_parser, find_request, begin_response, kafka_process_new_response,
  give_up_response, kafka_process_response, record_request, with_transaction, kafka_process,
  begin_filter, forget_connection, socket_kafka_filter,
}
use erda_agent.Kafka.Response.Unbatched.{IsUnbatched, wrapper-IsUnbatched, continue-IsUnbatched}

abbrev RoundIsUnbatched : Round → Type 0
RoundIsUnbatched (finished s) = IsUnbatched s
RoundIsUnbatched (calls s tup r) = IsUnbatched s

module _ (env : Env) where
  after_result-IsUnbatched :
      (s : State) (tup : ConnTuple) (ret : ParseResult) (r : ResponseContext)
      → IsUnbatched s
      → RoundIsUnbatched (after_result s tup ret r)
  unfolding after_result
  after_result-IsUnbatched s tup ret_eop r u = u
  after_result-IsUnbatched s tup ret_err r u = u
  after_result-IsUnbatched s tup ret_done r u = u
  after_result-IsUnbatched s tup ret_loop_end r u = u

  parser_round-IsUnbatched :
      (skb : Skb) (s : State) → IsUnbatched s → RoundIsUnbatched (parser_round env skb s)
  unfolding parser_round
  parser_round-IsUnbatched skb s u = elim (Option-cases (read_conn_tuple_skb skb zero_tuple)) [
    | inl e ↦ rw (parser_round, e) u
    | inr ((info, tup), e) ↦ elim (Option-cases (lookup s.kafka_response tup)) [
      | inl f ↦ rw (parser_round, e, f) u
      | inr (r, f) ↦
          let v =
            continue-IsUnbatched env skb s tup r info (parser_state_to_level r.state)
              r.transaction.request_api_version u in
          let step =
            kafka_continue_parse_response env skb s tup r info (parser_state_to_level r.state)
              r.transaction.request_api_version in
          rw (parser_round, e, f)
            (after_result-IsUnbatched
              (record (step.state) {
                kafka_response = write step.state.kafka_response tup step.response;
              })
              tup step.result step.response v)
    ]
  ]

  counted-IsUnbatched :
      (b : Bool) (s : State) (tup : ConnTuple) (t : Transaction)
      → IsUnbatched s
      → IsUnbatched (if b then (s, t) else kafka_batch_enqueue_wrapper env s tup false t).0
  counted-IsUnbatched true s tup t u = u
  counted-IsUnbatched false s tup t u = wrapper-IsUnbatched env s tup false t u

  call_failed-IsUnbatched :
      (s : State) (tup : ConnTuple) (r : ResponseContext)
      → IsUnbatched s
      → IsUnbatched (call_failed env s tup r)
  unfolding call_failed
  call_failed-IsUnbatched s tup r u =
      counted-IsUnbatched (r.transaction.records_count == 0) _ tup r.transaction u

  after_last :
      (round : Round)
      → RoundIsUnbatched round
      → IsUnbatched (elim round [ finished s' ↦ s' | calls s' tup r ↦ call_failed env s' tup r ])
  after_last (finished s') v = v
  after_last (calls s' tup r) v = call_failed-IsUnbatched s' tup r v

  after_round :
      (tail_calls : ℕ) (skb : Skb) (round : Round)
      → ((s : State) → IsUnbatched s → IsUnbatched (response_parser env tail_calls skb s))
      → RoundIsUnbatched round
      → IsUnbatched
          (elim round [ finished s' ↦ s' | calls s' tup r ↦ response_parser env tail_calls skb s' ])
  after_round tail_calls skb (finished s') again v = v
  after_round tail_calls skb (calls s' tup r) again v = again s' v

  response_parser-IsUnbatched :
      (tail_calls : ℕ) (skb : Skb) (s : State)
      → IsUnbatched s
      → IsUnbatched (response_parser env tail_calls skb s)
  unfolding response_parser
  response_parser-IsUnbatched zero skb s u =
      after_last (parser_round env skb s) (parser_round-IsUnbatched skb s u)
  response_parser-IsUnbatched (suc tail_calls) skb s u =
      after_round tail_calls skb (parser_round env skb s)
        (response_parser-IsUnbatched tail_calls skb) (parser_round-IsUnbatched skb s u)

  call_parser-IsUnbatched :
      (tail_calls : ℕ) (tup : ConnTuple) (skb : Skb) (s : State)
      → IsUnbatched s
      → IsUnbatched (kafka_call_response_parser env tail_calls tup skb s)
  unfolding kafka_call_response_parser
  call_parser-IsUnbatched zero tup skb s u = u
  call_parser-IsUnbatched (suc tail_calls) tup skb s u =
      response_parser-IsUnbatched tail_calls skb s u

  new_response-IsUnbatched :
      (tail_calls : ℕ) (tup : ConnTuple) (skb : Skb) (info : SkbInfo) (s : State)
      → IsUnbatched s
      → IsUnbatched (kafka_process_new_response env tail_calls tup skb info s).1
  unfolding kafka_process_new_response begin_response
  new_response-IsUnbatched tail_calls tup skb info s u =
      elim (Option-cases (find_request skb tup info.data_off s)) [
        | inl e ↦ rw (kafka_process_new_response, e) u
        | inr ((key, request, carry_over), e) ↦
            rw (kafka_process_new_response, e)
              (call_parser-IsUnbatched tail_calls tup skb
                (begin_response tup info s key request carry_over) u)
      ]

  given_up-IsUnbatched :
      (b : Bool) (s : State) (tup : ConnTuple) (t : Transaction)
      → IsUnbatched s
      → IsUnbatched (if b then s else (kafka_batch_enqueue_wrapper env s tup false t).0)
  given_up-IsUnbatched true s tup t u = u
  given_up-IsUnbatched false s tup t u = wrapper-IsUnbatched env s tup false t u

  give_up_response-IsUnbatched :
      (tup : ConnTuple) (r : ResponseContext) (s : State)
      → IsUnbatched s
      → IsUnbatched (give_up_response env tup r s)
  unfolding give_up_response
  give_up_response-IsUnbatched tup r s u =
      given_up-IsUnbatched (r.transaction.records_count == 0) s tup r.transaction u

  process_response-IsUnbatched :
      (tail_calls : ℕ) (tup : ConnTuple) (skb : Skb) (info : SkbInfo) (s : State)
      → IsUnbatched s
      → IsUnbatched (kafka_process_response env tail_calls tup skb info s).1
  unfolding kafka_process_response
  process_response-IsUnbatched tail_calls tup skb info s u =
      elim (Option-cases (lookup s.kafka_response tup)) [
        | inl e ↦
            rw (kafka_process_response, e) (new_response-IsUnbatched tail_calls tup skb info s u)
        | inr (r, e) ↦ elim (Bool-cases (info.tcp_seq == r.expected_tcp_seq)) [
          | inl f ↦
              rw (kafka_process_response, e, f)
                (call_parser-IsUnbatched tail_calls tup skb
                  (record s {
                    kafka_response =
                        write s.kafka_response tup
                          (record r { expected_tcp_seq = kafka_get_next_tcp_seq info });
                  })
                  u)
          | inr f ↦ elim (Bool-cases (neg32 (sub32 info.tcp_seq r.expected_tcp_seq))) [
            | inl g ↦ rw (kafka_process_response, e, f, g) u
            | inr g ↦
                rw (kafka_process_response, e, f, g)
                  (new_response-IsUnbatched tail_calls tup skb info (give_up_response env tup r s)
                    (give_up_response-IsUnbatched tup r s u))
          ]
        ]
      ]

  record_request-IsUnbatched :
      (tup : ConnTuple) (h : KafkaHeader) (t : Transaction) (s : State)
      → IsUnbatched s
      → IsUnbatched (record_request env tup h t s)
  unfolding record_request
  record_request-IsUnbatched tup h t s u = elim (Bool-cases (h.api_key == kafka_fetch)) [
    | inl e ↦ rw (record_request, e) u
    | inr e ↦ rw (record_request, e) (wrapper-IsUnbatched env s tup true t u)
  ]

  process-IsUnbatched :
      (tup : ConnTuple) (skb : Skb) (offset : ℕ) (s : State)
      → IsUnbatched s
      → IsUnbatched (kafka_process env tup skb offset s).1
  unfolding kafka_process
  process-IsUnbatched tup skb offset s u =
      after_parse (parse_request skb offset s.kafka.event.transaction)
    where
      after_parse :
          (p : Parsed)
          → IsUnbatched
              (elim p as (λ _. Bool × State) [
                | rejected t ↦ (false, with_transaction t s)
                | accepted h t ↦ (true, record_request env tup h t (with_transaction t s))
              ]).1
      after_parse (rejected t) = u
      after_parse (accepted h t) = record_request-IsUnbatched tup h t (with_transaction t s) u

  filter-IsUnbatched :
      (tail_calls : ℕ) (skb : Skb) (s : State)
      → IsUnbatched s
      → IsUnbatched (socket_kafka_filter env tail_calls skb s)
  unfolding socket_kafka_filter begin_filter forget_connection
  filter-IsUnbatched tail_calls skb s u =
      let s0 = begin_filter env s in
      elim (Option-cases (read_conn_tuple_skb skb zero_tuple)) [
        | inl e ↦ rw (socket_kafka_filter, e) u
        | inr ((info, tup), e) ↦ elim (Bool-cases (kafka_allow_packet info)) [
          | inr a ↦ rw (socket_kafka_filter, e, a) u
          | inl a ↦ elim (Bool-cases (is_tcp_termination info)) [
            | inl t ↦ rw (socket_kafka_filter, e, a, t) u
            | inr t ↦
                let done = kafka_process_response env tail_calls tup skb info s0 in
                let v = process_response-IsUnbatched tail_calls tup skb info s0 u in
                elim (Bool-cases (done.0)) [
                  | inl p ↦ rw (socket_kafka_filter, e, a, t, p) v
                  | inr p ↦
                      rw (socket_kafka_filter, e, a, t, p)
                        (process-IsUnbatched tup skb info.data_off done.1 v)
                ]
          ]
        ]
      ]

  -- The filter on the packets that arrive, each with the number of tail calls that the kernel allows.
  unfoldable pub filter_packets : List (ℕ × Skb) → State → State
  unfolding socket_kafka_filter
  filter_packets [] s = s
  filter_packets ((tail_calls, skb) ∷ packets) s =
      filter_packets packets (socket_kafka_filter env tail_calls skb s)

  -- Whatever packets the filter sees, on any number of tail calls: if the batches are those with
  -- which the program is loaded, they are so afterwards, and a flush sends nothing, whatever the
  -- kernel's outputs answer.
  pub filter_packets-IsUnbatched :
      (packets : List (ℕ × Skb)) (s : State) (output : BatchData KafkaEvent → Bool)
      → IsUnbatched s
      → let s' = filter_packets packets s in
        IsUnbatched s' × (batch_flush output s'.batches ≡ (initial_batches, []))
  unfolding filter_packets
  filter_packets-IsUnbatched [] s output u = (u, rw u (flush_initial output))
  filter_packets-IsUnbatched ((tail_calls, skb) ∷ packets) s output u =
      filter_packets-IsUnbatched packets (socket_kafka_filter env tail_calls skb s) output
        (filter-IsUnbatched tail_calls skb s u)
