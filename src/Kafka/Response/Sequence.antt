-- ===== src/Kafka/Response/Sequence.antt =====
-- `kafka_continue_parse_response` leaves the sequence number that is expected, and the responses of
-- the map.
use erda_agent.Base.{
  ℕ, ◌≡◌, refl, ◌∙◌, ap, Bool, true, false, not, ◌==◌, if◌then◌else◌, sub32, arith, length,
}
use erda_agent.Packet.{Skb, SkbInfo, ConnTuple}
use erda_agent.Kafka.Types.{
  ParseResult, ret_eop, ret_done, ret_err, ret_loop_end, ResponseContext, max_record_batches_arrays,
}
use erda_agent.Kafka.Batches.{record_batches_loop}
use erda_agent.Kafka.Batches.Sequence.{record_batches_loop-seq}
use erda_agent.Kafka.Partitions.{Parser, partition_loop}
use erda_agent.Kafka.Partitions
use erda_agent.Kafka.Batches
use erda_agent.Kafka.Partitions.Bounds.{partition_loop-Extends}
use erda_agent.Kafka.Response.{
  Env, State, Step, ParserLevel, partition, record_batch, kafka_batch_enqueue_wrapper,
  end_of_packet, enqueue_done, after_partitions, after_batches, keep_remainder,
  kafka_continue_parse_response,
}

-- The step `st` of a context `r` in the state `s`.
pub record Leaves (s : State) (r : ResponseContext) (st : Step) : Type 0 where
  pub seq : st.response.expected_tcp_seq ≡ r.expected_tcp_seq
  pub arrays : st.state.kafka.record_batches_arrays ≡ s.kafka.record_batches_arrays
  pub responses : st.state.kafka_response ≡ s.kafka_response

if-Leaves :
    (b : Bool) (s : State) (r : ResponseContext) (f g : Step)
    → Leaves s r f
    → Leaves s r g
    → Leaves s r (if b then f else g)
if-Leaves true s r f g x y = x
if-Leaves false s r f g x y = y

end_of_packet-Leaves :
    (skb : Skb) (data_end : ℕ) (s : State) (r : ResponseContext)
    → Leaves s r (end_of_packet skb data_end s r)
unfolding end_of_packet keep_remainder
end_of_packet-Leaves skb data_end s r = record {
  seq = ground arith;
  arrays = ground arith;
  responses = ground arith;
}

enqueue_done-Leaves :
    (env : Env) (s : State) (tup : ConnTuple) (r : ResponseContext)
    → Leaves s r (enqueue_done env s tup r)
unfolding enqueue_done kafka_batch_enqueue_wrapper
enqueue_done-Leaves env s tup r = record { seq = refl; arrays = refl; responses = refl }

module _ (env : Env) (skb : Skb) (data_end : ℕ) (tup : ConnTuple) (s : State) where
  after_partitions-Leaves :
      (ret : ParseResult) (r : ResponseContext)
      → Leaves s r (after_partitions env skb data_end tup s ret r)
  unfolding after_partitions
  after_partitions-Leaves ret_err r = record { seq = refl; arrays = refl; responses = refl }
  after_partitions-Leaves ret_done r =
      if-Leaves (not (r.record_batches_arrays_count == 0)) s r _ (enqueue_done env s tup r)
        (record { seq = refl; arrays = refl; responses = refl }) (enqueue_done-Leaves env s tup r)
  after_partitions-Leaves ret_eop r =
      if-Leaves (not (r.record_batches_arrays_count == 0)) s r _ (end_of_packet skb data_end s r)
        (record { seq = refl; arrays = refl; responses = refl })
        (end_of_packet-Leaves skb data_end s r)
  after_partitions-Leaves ret_loop_end r =
      if-Leaves (not (r.record_batches_arrays_count == 0)) s r _ _
        (record { seq = refl; arrays = refl; responses = refl })
        (record { seq = refl; arrays = refl; responses = refl })

  after_batches-Leaves :
      (ret : ParseResult) (r : ResponseContext)
      → Leaves s r (after_batches env skb data_end tup s ret r)
  unfolding after_batches
  after_batches-Leaves ret_done r =
      if-Leaves (r.partitions_count == 0) s r (enqueue_done env s tup r) _
        (enqueue_done-Leaves env s tup r) (record { seq = refl; arrays = refl; responses = refl })
  after_batches-Leaves ret_eop r =
      let one = record r { record_batches_arrays_idx = 0; record_batches_arrays_count = 1 } in
      let l = end_of_packet-Leaves skb data_end s one in
      if-Leaves (r.record_batches_arrays_idx == sub32 r.record_batches_arrays_count 1) s r
        (end_of_packet skb data_end s one) _
        (record { seq = l.seq; arrays = l.arrays; responses = l.responses })
        (record { seq = refl; arrays = refl; responses = refl })
  after_batches-Leaves ret_err r = record { seq = refl; arrays = refl; responses = refl }
  after_batches-Leaves ret_loop_end r = record { seq = refl; arrays = refl; responses = refl }

-- One call of the parser on a context `r`, with the scratch array at its 50 entries.
pub record Continues (s : State) (r : ResponseContext) (st : Step) : Type 0 where
  pub seq : st.response.expected_tcp_seq ≡ r.expected_tcp_seq
  pub arrays : length st.state.kafka.record_batches_arrays ≡ max_record_batches_arrays
  pub responses : st.state.kafka_response ≡ s.kafka_response

pub continue-Continues :
    (env : Env) (skb : Skb) (s : State) (tup : ConnTuple) (r : ResponseContext) (info : SkbInfo)
    (level : ParserLevel) (api_version : ℕ)
    → length s.kafka.record_batches_arrays ≡ max_record_batches_arrays
    → Continues s r (kafka_continue_parse_response env skb s tup r info level api_version)
unfolding kafka_continue_parse_response
continue-Continues env skb s tup r info partition api_version size =
    let c : erda_agent.Kafka.Partitions.Call = record {
      skb = skb;
      data_end = info.data_end;
      orig_offset = info.data_off;
      api_version = api_version;
    } in
    let begun : Parser = record {
      response = record r { record_batches_arrays_count = 0; record_batches_arrays_idx = 0 };
      arrays = s.kafka.record_batches_arrays;
    } in
    let p = partition_loop c begun in
    let e = partition_loop-Extends c begun size (omega arith) in
    let s' = record s { kafka = record (s.kafka) { record_batches_arrays = p.1.arrays } } in
    let l = after_partitions-Leaves env skb info.data_end tup s' p.0 p.1.response in
    record {
      seq = l.seq ∙ e.untouched.0;
      arrays = ap (λ xs. length xs) l.arrays ∙ (e.size ∙ size);
      responses = l.responses;
    }
continue-Continues env skb s tup r info record_batch api_version size =
    let c : erda_agent.Kafka.Batches.Call = record {
      skb = skb;
      data_end = info.data_end;
      orig_offset = info.data_off;
      arrays = s.kafka.record_batches_arrays;
    } in
    let p = record_batches_loop c r in
    let l = after_batches-Leaves env skb info.data_end tup s p.0 p.1 in
    record {
      seq = l.seq ∙ record_batches_loop-seq c r;
      arrays = ap (λ xs. length xs) l.arrays ∙ size;
      responses = l.responses;
    }
