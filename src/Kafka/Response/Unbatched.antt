-- ===== src/Kafka/Response/Unbatched.antt =====
-- The batches of the Kafka filter (ebpf/plugins/kafka/main.c) over one step of the response parser.
use erda_agent.Base.{
  ℕ, ◌≡◌, refl, sym, subst, not, if◌then◌else◌, Bool, true, false, ◌==◌, sub32, arith, nat_eq,
}
use erda_agent.Maps.{lookup}
use erda_agent.Packet.{Skb, SkbInfo, ConnTuple, tuple_eq, sock_key_eq}
use erda_agent.Events.{Layout, Batches, initial_batches, batch_enqueue}
use erda_agent.Kafka.Types.{
  ParseResult, ret_eop, ret_done, ret_err, ret_loop_end, ResponseContext, KafkaEvent, Transaction,
}
use erda_agent.Kafka.Partitions.{partition_loop}
use erda_agent.Kafka.Batches.{record_batches_loop}
use erda_agent.Kafka.Response.{
  Env, State, Step, ParserLevel, partition, record_batch, kafka_batch_enqueue_wrapper,
  end_of_packet, enqueue_done, after_partitions, after_batches, keep_remainder,
  kafka_continue_parse_response,
}

-- The batches are those that the program is loaded with.
abbrev pub IsUnbatched : State → Type 0
IsUnbatched s = s.batches ≡ initial_batches

enqueue_initial :
    (l : Layout) (b : Batches KafkaEvent) (e : KafkaEvent)
    → b ≡ initial_batches
    → batch_enqueue l b e ≡ initial_batches
unfolding batch_enqueue lookup
enqueue_initial l b e u =
    subst (λ (x : Batches KafkaEvent). batch_enqueue l x e ≡ initial_batches) (sym u) refl

if-IsUnbatched :
    (b : Bool) (x y : Step)
    → IsUnbatched x.state
    → IsUnbatched y.state
    → IsUnbatched (if b then x else y).state
if-IsUnbatched true x y u v = u
if-IsUnbatched false x y u v = v

module _ (env : Env) where
  pub wrapper-IsUnbatched :
      (s : State) (tup : ConnTuple) (own : Bool) (t : Transaction)
      → IsUnbatched s
      → IsUnbatched (kafka_batch_enqueue_wrapper env s tup own t).0
  unfolding kafka_batch_enqueue_wrapper
  wrapper-IsUnbatched s tup own t u = enqueue_initial env.layout s.batches _ u

  end_of_packet-IsUnbatched :
      (skb : Skb) (data_end : ℕ) (s : State) (r : ResponseContext)
      → IsUnbatched s
      → IsUnbatched (end_of_packet skb data_end s r).state
  unfolding end_of_packet keep_remainder
  end_of_packet-IsUnbatched skb data_end s r u = ground arith

  enqueue_done-IsUnbatched :
      (s : State) (tup : ConnTuple) (r : ResponseContext)
      → IsUnbatched s
      → IsUnbatched (enqueue_done env s tup r).state
  unfolding enqueue_done
  enqueue_done-IsUnbatched s tup r u = wrapper-IsUnbatched s tup false r.transaction u

  after_partitions-IsUnbatched :
      (skb : Skb) (data_end : ℕ) (tup : ConnTuple) (s : State) (ret : ParseResult)
      (r : ResponseContext)
      → IsUnbatched s
      → IsUnbatched (after_partitions env skb data_end tup s ret r).state
  unfolding after_partitions
  after_partitions-IsUnbatched skb data_end tup s ret_err r u = u
  after_partitions-IsUnbatched skb data_end tup s ret_done r u =
      if-IsUnbatched (not (r.record_batches_arrays_count == 0)) _ (enqueue_done env s tup r) u
        (enqueue_done-IsUnbatched s tup r u)
  after_partitions-IsUnbatched skb data_end tup s ret_eop r u =
      if-IsUnbatched (not (r.record_batches_arrays_count == 0)) _ (end_of_packet skb data_end s r) u
        (end_of_packet-IsUnbatched skb data_end s r u)
  after_partitions-IsUnbatched skb data_end tup s ret_loop_end r u =
      if-IsUnbatched (not (r.record_batches_arrays_count == 0)) _ _ u u

  after_batches-IsUnbatched :
      (skb : Skb) (data_end : ℕ) (tup : ConnTuple) (s : State) (ret : ParseResult)
      (r : ResponseContext)
      → IsUnbatched s
      → IsUnbatched (after_batches env skb data_end tup s ret r).state
  unfolding after_batches
  after_batches-IsUnbatched skb data_end tup s ret_done r u =
      if-IsUnbatched (r.partitions_count == 0) (enqueue_done env s tup r) _
        (enqueue_done-IsUnbatched s tup r u) u
  after_batches-IsUnbatched skb data_end tup s ret_eop r u =
      let one = record r { record_batches_arrays_idx = 0; record_batches_arrays_count = 1 } in
      if-IsUnbatched (r.record_batches_arrays_idx == sub32 r.record_batches_arrays_count 1)
        (end_of_packet skb data_end s one) _ (end_of_packet-IsUnbatched skb data_end s one u) u
  after_batches-IsUnbatched skb data_end tup s ret_err r u = u
  after_batches-IsUnbatched skb data_end tup s ret_loop_end r u = u

  pub continue-IsUnbatched :
      (skb : Skb) (s : State) (tup : ConnTuple) (r : ResponseContext) (info : SkbInfo)
      (level : ParserLevel) (api_version : ℕ)
      → IsUnbatched s
      → IsUnbatched (kafka_continue_parse_response env skb s tup r info level api_version).state
  unfolding kafka_continue_parse_response
  continue-IsUnbatched skb s tup r info partition api_version u =
      let p =
        partition_loop
          (record {
            skb = skb;
            data_end = info.data_end;
            orig_offset = info.data_off;
            api_version = api_version;
          })
          (record {
            response = record r { record_batches_arrays_count = 0; record_batches_arrays_idx = 0 };
            arrays = s.kafka.record_batches_arrays;
          }) in
      after_partitions-IsUnbatched skb info.data_end tup
        (record s { kafka = record (s.kafka) { record_batches_arrays = p.1.arrays } }) p.0
        p.1.response u
  continue-IsUnbatched skb s tup r info record_batch api_version u =
      let p =
        record_batches_loop
          (record {
            skb = skb;
            data_end = info.data_end;
            orig_offset = info.data_off;
            arrays = s.kafka.record_batches_arrays;
          })
          r in
      after_batches-IsUnbatched skb info.data_end tup s p.0 p.1 u
