-- ===== src/Kafka/Response/Program/Reset.antt =====
-- What the filter does with the end of a connection.
use erda_agent.Base.{
  ℕ, ◌≡◌, ◌≢◌, refl, sym, ◌∙◌, ◌⊎◌, inl, inr, none, some, true, false, Bool-cases, arith, nat_eq,
}
use erda_agent.Maps.{lookup, delete}
use erda_agent.Maps.Laws.{lookup-delete_self, lookup-delete_other}
use erda_agent.Packet.{
  Skb, SkbInfo, ConnTuple, zero_tuple, tuple_eq, sock_key_eq, tuple_beq, tuple_beq_iff,
  read_conn_tuple_skb,
}
use erda_agent.Packet.Tuple.{flip_tuple}
use erda_agent.Kafka.Types.{zero_transaction}
use erda_agent.Kafka.Response.{Env, State, is_tcp_termination, kafka_allow_packet}
use erda_agent.Kafka.Response.Program.{begin_filter, forget_connection, socket_kafka_filter}

distinct : (a b : ConnTuple) → a ≢ b → tuple_beq a b ≡ false
distinct a b h = elim (Bool-cases (tuple_beq a b)) [
  | inl e ↦ absurd (h ((tuple_beq_iff a b).0 e))
  | inr e ↦ e
]

forget_connection-lookup :
    (tup k : ConnTuple) (s : State)
    → ((k ≡ tup) ⊎ (k ≡ flip_tuple tup) → lookup (forget_connection tup s).kafka_response k ≡ none)
      × (k ≢ tup
          → k ≢ flip_tuple tup
          → lookup (forget_connection tup s).kafka_response k ≡ lookup s.kafka_response k)
unfolding forget_connection
forget_connection-lookup tup k s =
    let once = delete s.kafka_response tup in
    (
      (λ h. elim (Bool-cases (tuple_beq (flip_tuple tup) k)) [
        | inl e ↦
            let f = (tuple_beq_iff (flip_tuple tup) k).0 e in
            rw (sym f) (lookup-delete_self once (flip_tuple tup))
        | inr e ↦ lookup-delete_other once (flip_tuple tup) k e ∙ elim h [
          | inl g ↦ rw g (lookup-delete_self s.kafka_response tup)
          | inr g ↦
              let same : tuple_beq (flip_tuple tup) k ≡ true =
                (tuple_beq_iff (flip_tuple tup) k).1 (sym g) in
              cc
        ]
      ]),
      (λ h g.
          lookup-delete_other once (flip_tuple tup) k (distinct (flip_tuple tup) k (λ e. g (sym e)))
          ∙ lookup-delete_other s.kafka_response tup k (distinct tup k (λ e. h (sym e)))),
    )

allow_lem : (info : SkbInfo) → is_tcp_termination info ≡ true → kafka_allow_packet info ≡ true
unfolding kafka_allow_packet
allow_lem info t = ground arith

filter_forgets :
    (env : Env) (tail_calls : ℕ) (skb : Skb) (s : State) (info : SkbInfo) (tup : ConnTuple)
    → read_conn_tuple_skb skb zero_tuple ≡ some (info, tup)
    → is_tcp_termination info ≡ true
    → socket_kafka_filter env tail_calls skb s ≡ forget_connection tup (begin_filter env s)
unfolding socket_kafka_filter
filter_forgets env tail_calls skb s info tup e t = rw (socket_kafka_filter, e, allow_lem info t, t)

-- A packet with the flag FIN or RST, with or without payload: neither direction of its connection
-- has a response afterwards, every other connection's response is as it was, and so are the
-- requests in flight, the events, and the batches. Of the scratch entry only the transaction
-- changes: it is cleared and has the time.
pub socket_kafka_filter-forgets :
    (env : Env) (tail_calls : ℕ) (skb : Skb) (s : State) (info : SkbInfo) (tup k : ConnTuple)
    → read_conn_tuple_skb skb zero_tuple ≡ some (info, tup)
    → is_tcp_termination info ≡ true
    → let s' = socket_kafka_filter env tail_calls skb s in
      ((k ≡ tup) ⊎ (k ≡ flip_tuple tup) → lookup s'.kafka_response k ≡ none)
      × (k ≢ tup → k ≢ flip_tuple tup → lookup s'.kafka_response k ≡ lookup s.kafka_response k)
      × (s'.kafka_in_flight ≡ s.kafka_in_flight)
      × (s'.kafka_event ≡ s.kafka_event)
      × (s'.batches ≡ s.batches)
      × (s'.kafka ≡ record (s.kafka) {
        event = record (s.kafka.event) {
          transaction = record zero_transaction { request_started = env.ktime s.clock_reads };
        };
      })
unfolding begin_filter forget_connection
socket_kafka_filter-forgets env tail_calls skb s info tup k e t =
    let (f, g) = forget_connection-lookup tup k (begin_filter env s) in
    rw (filter_forgets env tail_calls skb s info tup e t) (f, g, refl, refl, refl, refl)
