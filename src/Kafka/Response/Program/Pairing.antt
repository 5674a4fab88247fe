-- ===== src/Kafka/Response/Program/Pairing.antt =====
-- How a response finds its request.
use erda_agent.Base.{ℕ, ◌+◌, ◌%◌, ◌^◌, ◌≤◌, ◌<◌, ◌≡◌, ap, ◌∙◌, none, some, arith, nat_eq, length}
use erda_agent.Maps.{lookup}
use erda_agent.Maps.Laws.{lookup-update_noexist_bound, lookup-update_noexist_fresh}
use erda_agent.Packet.{Skb, ConnTuple}
use erda_agent.Packet.Tuple.{flip_tuple}
use erda_agent.Packet.Buffer.{read_big_endian}
use erda_agent.Kafka.Types.{KafkaHeader, Transaction, kafka_fetch}
use erda_agent.Kafka.Response.{Env, State}
use erda_agent.Kafka.Response.Program.{find_request, record_request}

-- Any packet with at least eight bytes of payload, whatever they are, finds the request under its
-- connection's key.
find_request_bound :
    (skb : Skb) (tup : ConnTuple) (data_off : ℕ) (s : State) (t : Transaction)
    → data_off + 8 ≤ skb.len
    → skb.len < 2 ^ 32
    → lookup s.kafka_in_flight (tup.saddr_h % 2 ^ 32) ≡ some t
    → find_request skb tup data_off s ≡ some (tup.saddr_h % 2 ^ 32, t, 8)
unfolding find_request read_big_endian
find_request_bound skb tup data_off s t fits small e = ground arith

-- A Fetch that the filter accepts on a connection, while no request waits under its key and the map
-- has room: the next packet of the other direction with at least eight bytes of payload finds this
-- request, 8 bytes into the payload.
pub find_request-record_request :
    (env : Env) (tup : ConnTuple) (h : KafkaHeader) (t : Transaction) (s : State) (skb : Skb)
    (data_off : ℕ)
    → h.api_key ≡ kafka_fetch
    → lookup s.kafka_in_flight (tup.daddr_h % 2 ^ 32) ≡ none
    → length s.kafka_in_flight.entries < s.kafka_in_flight.max_entries
    → data_off + 8 ≤ skb.len
    → skb.len < 2 ^ 32
    → find_request skb (flip_tuple tup) data_off (record_request env tup h t s)
      ≡ some (tup.daddr_h % 2 ^ 32, t, 8)
unfolding record_request flip_tuple
find_request-record_request env tup h t s skb data_off fetch free room fits small =
    find_request_bound skb (flip_tuple tup) data_off (record_request env tup h t s) t fits small
      (rw fetch (lookup-update_noexist_fresh s.kafka_in_flight (tup.daddr_h % 2 ^ 32) t free room))

first_kept :
    (env : Env) (tup : ConnTuple) (h : KafkaHeader) (t : Transaction) (s : State)
    → h.api_key ≡ kafka_fetch
    → tup.daddr_h ≡ 0
    → lookup s.kafka_in_flight 0 ≡ none
    → length s.kafka_in_flight.entries < s.kafka_in_flight.max_entries
    → lookup (record_request env tup h t s).kafka_in_flight 0 ≡ some t
unfolding record_request flip_tuple
first_kept env tup h t s fetch v4 free room =
    rw (fetch, v4) (lookup-update_noexist_fresh s.kafka_in_flight 0 t free room)

second_dropped :
    (env : Env) (tup : ConnTuple) (h : KafkaHeader) (t first : Transaction) (s : State)
    → h.api_key ≡ kafka_fetch
    → tup.daddr_h ≡ 0
    → lookup s.kafka_in_flight 0 ≡ some first
    → record_request env tup h t s ≡ s
unfolding record_request flip_tuple
second_dropped env tup h t first s fetch v4 bound =
    rw (fetch, v4)
      (ap (λ m. record s { kafka_in_flight = m })
        (lookup-update_noexist_bound s.kafka_in_flight 0 t first bound))

response_finds :
    (skb : Skb) (tup : ConnTuple) (data_off : ℕ) (s : State) (t : Transaction)
    → tup.daddr_h ≡ 0
    → data_off + 8 ≤ skb.len
    → skb.len < 2 ^ 32
    → lookup s.kafka_in_flight 0 ≡ some t
    → find_request skb (flip_tuple tup) data_off s ≡ some (0, t, 8)
unfolding flip_tuple
response_finds skb tup data_off s t v4 fits small bound =
    let found : find_request skb (flip_tuple tup) data_off s ≡ some (tup.daddr_h % 2 ^ 32, t, 8) =
      find_request_bound skb (flip_tuple tup) data_off s t fits small (rw v4 bound) in
    found ∙ rw v4

-- Two Fetch requests on any two connections to servers with an IPv4 address (the upper half of the
-- tuple's destination is 0), with any two correlation ids, the second while the first waits: the
-- second is not kept, and the next packet from either server, whatever correlation id it holds,
-- finds the first request. `record_request` is given the two requests in this order.
pub find_request-mixes_connections :
    (env : Env) (tup1 tup2 : ConnTuple) (h1 h2 : KafkaHeader) (t1 t2 : Transaction) (s : State)
    (skb : Skb) (data_off : ℕ)
    → h1.api_key ≡ kafka_fetch
    → h2.api_key ≡ kafka_fetch
    → tup1.daddr_h ≡ 0
    → tup2.daddr_h ≡ 0
    → lookup s.kafka_in_flight 0 ≡ none
    → length s.kafka_in_flight.entries < s.kafka_in_flight.max_entries
    → data_off + 8 ≤ skb.len
    → skb.len < 2 ^ 32
    → let s1 = record_request env tup1 h1 t1 s in
      let s2 = record_request env tup2 h2 t2 s1 in
      (s2 ≡ s1)
      × (find_request skb (flip_tuple tup1) data_off s2 ≡ some (0, t1, 8))
      × (find_request skb (flip_tuple tup2) data_off s2 ≡ some (0, t1, 8))
find_request-mixes_connections env tup1 tup2 h1 h2 t1 t2 s skb data_off fetch1 fetch2 v4 w4 free
      room fits small =
    let s1 = record_request env tup1 h1 t1 s in
    let bound = first_kept env tup1 h1 t1 s fetch1 v4 free room in
    let same = second_dropped env tup2 h2 t2 t1 s1 fetch2 w4 bound in
    (
      same,
      rw same (response_finds skb tup1 data_off s1 t1 v4 fits small bound),
      rw same (response_finds skb tup2 data_off s1 t1 w4 fits small bound),
    )
