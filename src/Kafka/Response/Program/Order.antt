-- ===== src/Kafka/Response/Program/Order.antt =====
-- How the filter orders the packets of a response.
use erda_agent.Base.{
  ℕ, zero, suc, ◌^◌, ◌<◌, ◌≡◌, refl, sym, ◌∙◌, subst, ap, none, some, Bool, true, false, ◌==◌,
  sub32, neg32, arith, Option-cases, inl, inr, length, nat_eq,
}
use erda_agent.Maps.{lookup, write}
use erda_agent.Maps.Laws.{lookup-delete_self, lookup-write_self}
use erda_agent.Packet.{
  Skb, SkbInfo, ConnTuple, zero_tuple, tuple_eq, sock_key_eq, read_conn_tuple_skb,
}
use erda_agent.Kafka.Types.{
  ParseResult, ret_eop, ret_done, ret_err, ret_loop_end, ResponseContext, max_record_batches_arrays,
}
use erda_agent.Kafka.Response.{
  Env, State, Step, kafka_get_next_tcp_seq, kafka_batch_enqueue_wrapper, parser_state_to_level,
  kafka_continue_parse_response,
}
use erda_agent.Kafka.Response.Sequence.{Continues, continue-Continues}
use erda_agent.Kafka.Response.Program.{
  Round, finished, calls, after_result, parser_round, call_failed, response_parser,
  kafka_call_response_parser, kafka_process_response,
}

-- The scratch array has its 50 entries, and a response on the connection expects `seq`.
record Expects (tup : ConnTuple) (seq : ℕ) (s : State) : Type 0 where
  arrays : length s.kafka.record_batches_arrays ≡ max_record_batches_arrays
  expected : (r : ResponseContext) → lookup s.kafka_response tup ≡ some r → r.expected_tcp_seq ≡ seq

module _ (tup : ConnTuple) (seq : ℕ) where
  -- A round on the connection.
  abbrev RoundExpects : Round → Type 0
  RoundExpects (finished s) = Expects tup seq s
  RoundExpects (calls s tup' r) = (tup' ≡ tup) × Expects tup seq s

  gone-Expects :
      (s : State)
      → length s.kafka.record_batches_arrays ≡ max_record_batches_arrays
      → lookup s.kafka_response tup ≡ none
      → Expects tup seq s
  gone-Expects s size e = record { arrays = size; expected = λ r f. cc }

  after_result-Expects :
      (s : State) (ret : ParseResult) (r : ResponseContext)
      → Expects tup seq s
      → RoundExpects (after_result s tup ret r)
  unfolding after_result
  after_result-Expects s ret_eop r x = x
  after_result-Expects s ret_err r x =
      gone-Expects _ x.arrays (lookup-delete_self s.kafka_response tup)
  after_result-Expects s ret_done r x =
      gone-Expects _ x.arrays (lookup-delete_self s.kafka_response tup)
  after_result-Expects s ret_loop_end r x = (refl, x)

  call_failed-Expects :
      (env : Env) (s : State) (r : ResponseContext)
      → Expects tup seq s
      → Expects tup seq (call_failed env s tup r)
  unfolding call_failed kafka_batch_enqueue_wrapper
  call_failed-Expects env s r x =
      let d = lookup-delete_self s.kafka_response tup in
      gone-Expects (call_failed env s tup r) (ground (arith, x.arrays)) (ground (arith, d))

  -- A step on the context that the map holds, written back.
  written-Expects :
      (s : State) (r : ResponseContext) (st : Step)
      → lookup s.kafka_response tup ≡ some r
      → r.expected_tcp_seq ≡ seq
      → Continues s r st
      → Expects tup seq
          (record (st.state) { kafka_response = write st.state.kafka_response tup st.response })
  written-Expects s r st e q c = record {
    arrays = c.arrays;
    expected = λ r' f.
        let there : lookup st.state.kafka_response tup ≡ some r = rw (c.responses) e in
        let self = lookup-write_self st.state.kafka_response tup st.response r there in
        let same : st.response ≡ r' = cc in
        ap (λ (x : ResponseContext). x.expected_tcp_seq) (sym same) ∙ (c.seq ∙ q);
  }

  parser_round-Expects :
      (env : Env) (skb : Skb) (s : State) (info : SkbInfo)
      → read_conn_tuple_skb skb zero_tuple ≡ some (info, tup)
      → Expects tup seq s
      → RoundExpects (parser_round env skb s)
  unfolding parser_round
  parser_round-Expects env skb s info conn x = elim (Option-cases (lookup s.kafka_response tup)) [
    | inl e ↦ rw (parser_round, conn, e) x
    | inr (r, e) ↦
        let step =
          kafka_continue_parse_response env skb s tup r info (parser_state_to_level r.state)
            r.transaction.request_api_version in
        rw (parser_round, conn, e)
          (after_result-Expects
            (record (step.state) {
              kafka_response = write step.state.kafka_response tup step.response;
            })
            step.result step.response
            (written-Expects s r step e (x.expected r e) (
              continue-Continues env skb s tup r info (parser_state_to_level r.state)
                r.transaction.request_api_version x.arrays)))
  ]

  after_round_last :
      (env : Env) (f : Round)
      → RoundExpects f
      → Expects tup seq (elim f [ finished s' ↦ s' | calls s' tup' r ↦ call_failed env s' tup' r ])
  after_round_last env (finished s) x = x
  after_round_last env (calls s tup' r) (e, x) = rw e (call_failed-Expects env s r x)

  after_round :
      (env : Env) (tail_calls : ℕ) (skb : Skb) (f : Round)
      → ((s : State) → Expects tup seq s → Expects tup seq (response_parser env tail_calls skb s))
      → RoundExpects f
      → Expects tup seq
          (elim f [ finished s' ↦ s' | calls s' tup' r ↦ response_parser env tail_calls skb s' ])
  after_round env tail_calls skb (finished s) ih x = x
  after_round env tail_calls skb (calls s tup' r) ih (e, x) = ih s x

  response_parser-Expects :
      (env : Env) (tail_calls : ℕ) (skb : Skb) (info : SkbInfo)
      → read_conn_tuple_skb skb zero_tuple ≡ some (info, tup)
      → (s : State) → Expects tup seq s
      → Expects tup seq (response_parser env tail_calls skb s)
  unfolding response_parser
  response_parser-Expects env zero skb info conn s x =
      after_round_last env (parser_round env skb s) (parser_round-Expects env skb s info conn x)
  response_parser-Expects env (suc tail_calls) skb info conn s x =
      after_round env tail_calls skb (parser_round env skb s)
        (response_parser-Expects env tail_calls skb info conn)
        (parser_round-Expects env skb s info conn x)

  call_parser-Expects :
      (env : Env) (tail_calls : ℕ) (skb : Skb) (info : SkbInfo) (s : State)
      → read_conn_tuple_skb skb zero_tuple ≡ some (info, tup)
      → Expects tup seq s
      → Expects tup seq (kafka_call_response_parser env tail_calls tup skb s)
  unfolding kafka_call_response_parser
  call_parser-Expects env zero skb info s conn x =
      gone-Expects _ x.arrays (lookup-delete_self s.kafka_response tup)
  call_parser-Expects env (suc tail_calls) skb info s conn x =
      response_parser-Expects env tail_calls skb info conn s x

-- A packet whose sequence number is not the one expected and not after it.
old_packet :
    (env : Env) (tail_calls : ℕ) (tup : ConnTuple) (skb : Skb) (info : SkbInfo) (s : State)
    (r : ResponseContext)
    → lookup s.kafka_response tup ≡ some r
    → (info.tcp_seq == r.expected_tcp_seq) ≡ false
    → neg32 (sub32 info.tcp_seq r.expected_tcp_seq) ≡ true
    → kafka_process_response env tail_calls tup skb info s ≡ (true, s)
unfolding kafka_process_response
old_packet env tail_calls tup skb info s r e differs old =
    rw (kafka_process_response, e, differs, old)

-- The state in which the parser is called with the packet that is expected.
abbrev awaits_next : ConnTuple → SkbInfo → State → ResponseContext → State
awaits_next tup info s r = record s {
  kafka_response =
      write s.kafka_response tup (record r { expected_tcp_seq = kafka_get_next_tcp_seq info });
}

next_packet :
    (env : Env) (tail_calls : ℕ) (tup : ConnTuple) (skb : Skb) (info : SkbInfo) (s : State)
    (r : ResponseContext)
    → lookup s.kafka_response tup ≡ some r
    → (info.tcp_seq == r.expected_tcp_seq) ≡ true
    → kafka_process_response env tail_calls tup skb info s
      ≡ (true, kafka_call_response_parser env tail_calls tup skb (awaits_next tup info s r))
unfolding kafka_process_response
next_packet env tail_calls tup skb info s r e same = rw (kafka_process_response, e, same)

awaits_next-Expects :
    (tup : ConnTuple) (info : SkbInfo) (s : State) (r : ResponseContext)
    → length s.kafka.record_batches_arrays ≡ max_record_batches_arrays
    → lookup s.kafka_response tup ≡ some r
    → Expects tup (kafka_get_next_tcp_seq info) (awaits_next tup info s r)
awaits_next-Expects tup info s r size e = record {
  arrays = size;
  expected = λ r' f.
      let next = record r { expected_tcp_seq = kafka_get_next_tcp_seq info } in
      let self = lookup-write_self s.kafka_response tup next r e in
      let same : next ≡ r' = cc in ap (λ (x : ResponseContext). x.expected_tcp_seq) (sym same);
}

-- Behind a payload, the next sequence number is after the packet's.
after_payload :
    (info : SkbInfo)
    → info.tcp_seq < 2 ^ 32
    → info.data_off < info.data_end
    → info.data_end < 2 ^ 31
    → ((info.tcp_seq == kafka_get_next_tcp_seq info) ≡ false)
      × (neg32 (sub32 info.tcp_seq (kafka_get_next_tcp_seq info)) ≡ true)
unfolding kafka_get_next_tcp_seq
after_payload info word payload short = (ground arith, ground arith)

-- The packet that a response's context expects is handed to the parser; if it comes once more while
-- the response is still there, whatever the parser did with it and however many tail calls it was
-- given, it changes nothing. The packet's payload is not empty and shorter than 2 ^ 31 bytes.
pub kafka_process_response-ignores_repeated :
    (env1 env2 : Env) (tail_calls1 tail_calls2 : ℕ) (tup : ConnTuple) (skb : Skb) (info : SkbInfo)
    (s : State) (r r' : ResponseContext)
    → read_conn_tuple_skb skb zero_tuple ≡ some (info, tup)
    → length s.kafka.record_batches_arrays ≡ max_record_batches_arrays
    → lookup s.kafka_response tup ≡ some r
    → info.tcp_seq ≡ r.expected_tcp_seq
    → info.tcp_seq < 2 ^ 32
    → info.data_off < info.data_end
    → info.data_end < 2 ^ 31
    → let s' = (kafka_process_response env1 tail_calls1 tup skb info s).1 in
      lookup s'.kafka_response tup ≡ some r'
      → kafka_process_response env2 tail_calls2 tup skb info s' ≡ (true, s')
kafka_process_response-ignores_repeated env1 env2 tail_calls1 tail_calls2 tup skb info s r r' conn
      size e seq word payload short e' =
    let next = kafka_get_next_tcp_seq info in
    let called = kafka_call_response_parser env1 tail_calls1 tup skb (awaits_next tup info s r) in
    let first = next_packet env1 tail_calls1 tup skb info s r e (ground arith) in
    let x : Expects tup next called =
      call_parser-Expects tup next env1 tail_calls1 skb info (awaits_next tup info s r) conn
        (awaits_next-Expects tup info s r size e) in
    let there : lookup called.kafka_response tup ≡ some r' =
      subst (λ (p : Bool × State). lookup p.1.kafka_response tup ≡ some r') first e' in
    let is_next : next ≡ r'.expected_tcp_seq = sym (x.expected r' there) in
    let (differs, old) = after_payload info word payload short in
    rw first (
      old_packet env2 tail_calls2 tup skb info called r' there
        (subst (λ n. (info.tcp_seq == n) ≡ false) is_next differs)
        (subst (λ n. neg32 (sub32 info.tcp_seq n) ≡ true) is_next old))
