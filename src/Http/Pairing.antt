-- ===== src/Http/Pairing.antt =====
-- A request and the response that answers it, with any packets of other connections between them.
use erda_agent.Base.{
  ℕ, nat_eq, ◌<◌, ◌≡◌, ◌≢◌, refl, ap, ◌∙◌, List, [], ◌∷◌, none, some, false, length, All, sub64,
  replicate, arith,
}
use erda_agent.Maps.{lookup, write}
use erda_agent.Maps.Laws.{lookup-delete_self, lookup-update_self}
use erda_agent.Packet.{
  Skb, SkbInfo, SockKey, ConnTuple, zero_tuple, sock_key_beq, sock_key_eq, read_conn_tuple_skb,
}
use erda_agent.Packet.Tuple.{flip_tuple}
use erda_agent.Http.{
  HttpState, HttpInfo, HttpMethod, http_method_unknown, http_request, http_response, zero_key,
  compose_conn_key, select_ip, store_request, note_request, answered, note_response, process_phase,
  read_prefix, read_http_info, is_drop_packet, socket_filter_package, read_status_code,
  load_http_payload, http_payload_size,
}
use erda_agent.Http.Keeps.{conn_key, Agrees, socket_filter_package-Agrees}

-- The filter on the packets that arrive, each with its time.
unfoldable pub filter_packets : List (ℕ × Skb) → HttpState → HttpState
unfolding socket_filter_package
filter_packets [] s = s
filter_packets ((now, skb) ∷ packets) s = filter_packets packets (socket_filter_package now skb s)

-- A packet of another connection than k.
abbrev pub OfOther : SockKey → ℕ × Skb → Type 0
OfOther k packet = sock_key_beq (conn_key packet.1) k ≡ false

pub filter_packets-Agrees :
    (k : SockKey) (packets : List (ℕ × Skb)) (s : HttpState)
    → All (OfOther k) packets
    → Agrees k s (filter_packets packets s)
unfolding filter_packets
filter_packets-Agrees k [] s others = record {
  same_filter = refl;
  same_processing = refl;
  same_metrics = refl;
}
filter_packets-Agrees k ((now, skb) ∷ packets) s (other, others) =
    let first = socket_filter_package-Agrees now skb k s other in
    let rest = filter_packets-Agrees k packets (socket_filter_package now skb s) others in
    record {
      same_filter = rest.same_filter ∙ first.same_filter;
      same_processing = rest.same_processing ∙ first.same_processing;
      same_metrics = rest.same_metrics ∙ first.same_metrics;
    }

-- The response's key is its request's.
compose_conn_key-flip :
    (k : SockKey) (t : ConnTuple)
    → compose_conn_key k (flip_tuple t) http_response ≡ compose_conn_key k t http_request
unfolding compose_conn_key select_ip flip_tuple
compose_conn_key-flip k t = refl

-- The fragment that is copied for a packet's payload.
abbrev pub fragment_of : Skb → ℕ → List ℕ
fragment_of skb offset = load_http_payload skb offset (replicate http_payload_size 0)

-- What a request leaves behind, and what its answer makes of it.
abbrev pub pending : ℕ → HttpMethod → List ℕ → HttpInfo
pending now m fragment = record {
  request_ts = now;
  duration = 0;
  status_code = 0;
  method = m;
  request_fragment = fragment;
}

store_request-pending :
    (now : ℕ) (k : SockKey) (m : HttpMethod) (fragment : List ℕ) (s : HttpState)
    → m ≢ http_method_unknown
    → length s.http_processing_map.entries < s.http_processing_map.max_entries
    → lookup (store_request now k m fragment s).http_processing_map k
      ≡ some (pending now m fragment)
unfolding store_request
store_request-pending now k http_method_unknown fragment s known room = absurd (known refl)
store_request-pending now k m fragment s known room =
    lookup-update_self s.http_processing_map k (pending now m fragment) room

-- The packet is a request (response) of the connection t, with the payload at the offset.
pub record Arrives (skb : Skb) (t : ConnTuple) (offset : ℕ) : Type 0 where
  pub info : SkbInfo
  pub tuple_read : read_conn_tuple_skb skb zero_tuple ≡ some (info, t)
  pub payload_at : info.data_off ≡ offset
  pub is_tcp : is_drop_packet t ≡ false

socket_filter_package-Arrives :
    (now : ℕ) (skb : Skb) (t : ConnTuple) (offset : ℕ) (s : HttpState)
    → Arrives skb t offset
    → socket_filter_package now skb s ≡ read_http_info now skb t offset s
unfolding socket_filter_package
socket_filter_package-Arrives now skb t offset s arrives =
    rw (socket_filter_package, arrives.tuple_read, arrives.is_tcp, arrives.payload_at) refl

read_http_info-request :
    (now : ℕ) (skb : Skb) (t : ConnTuple) (offset : ℕ) (s : HttpState)
    → (read_prefix skb offset).phase ≡ http_request
    → let x = read_prefix skb offset in
      read_http_info now skb t offset s
      ≡ note_request now
          (compose_conn_key zero_key t http_request)
          x.method
          (fragment_of skb x.offset)
          s
unfolding read_http_info process_phase
read_http_info-request now skb t offset s phase = rw (read_http_info, phase) refl

read_http_info-response :
    (now : ℕ) (skb : Skb) (t : ConnTuple) (offset : ℕ) (s : HttpState)
    → (read_prefix skb offset).phase ≡ http_response
    → read_http_info now skb (flip_tuple t) offset s
      ≡ note_response now
          (compose_conn_key zero_key t http_request)
          (fragment_of skb (read_prefix skb offset).offset)
          s
unfolding read_http_info process_phase
read_http_info-response now skb t offset s phase =
    rw (read_http_info, phase, compose_conn_key-flip zero_key t) refl

note_request-watched :
    (now : ℕ) (k : SockKey) (m : HttpMethod) (fragment : List ℕ) (s : HttpState) (v : ℕ)
    → lookup s.filter_map k.src_ip ≡ some v
    → note_request now k m fragment s ≡ store_request now k m fragment s
unfolding note_request
note_request-watched now k m fragment s v watched = rw (note_request, watched) refl

note_response-waiting :
    (now : ℕ) (k : SockKey) (payload : List ℕ) (s : HttpState) (i : HttpInfo)
    → lookup s.http_processing_map k ≡ some i
    → length s.metrics_map.entries < s.metrics_map.max_entries
    → let s' = note_response now k payload s in
      (lookup s'.http_processing_map k ≡ none)
      × (lookup s'.metrics_map k ≡ some (answered now payload i))
unfolding note_response
note_response-waiting now k payload s i waiting room =
    let a = answered now payload i in
    rw (note_response, waiting)
      (
        lookup-delete_self (write s.http_processing_map k a) k,
        lookup-update_self s.metrics_map k a room,
      )

filter_request :
    (now : ℕ) (skb : Skb) (t : ConnTuple) (offset : ℕ) (s : HttpState) (v : ℕ)
    → Arrives skb t offset
    → (read_prefix skb offset).phase ≡ http_request
    → (read_prefix skb offset).method ≢ http_method_unknown
    → let k = compose_conn_key zero_key t http_request in
      let x = read_prefix skb offset in
      lookup s.filter_map k.src_ip ≡ some v
      → length s.http_processing_map.entries < s.http_processing_map.max_entries
      → lookup (socket_filter_package now skb s).http_processing_map k
        ≡ some (pending now x.method (fragment_of skb x.offset))
filter_request now skb t offset s v arrives phase known watched room =
    let k = compose_conn_key zero_key t http_request in
    let x = read_prefix skb offset in
    rw
      (
        socket_filter_package-Arrives now skb t offset s arrives,
        read_http_info-request now skb t offset s phase,
        note_request-watched now k x.method (fragment_of skb x.offset) s v watched,
      )
      (store_request-pending now k x.method (fragment_of skb x.offset) s known room)

filter_response :
    (now : ℕ) (skb : Skb) (t : ConnTuple) (offset : ℕ) (s : HttpState) (i : HttpInfo)
    → Arrives skb (flip_tuple t) offset
    → (read_prefix skb offset).phase ≡ http_response
    → let k = compose_conn_key zero_key t http_request in
      let s' = socket_filter_package now skb s in
      lookup s.http_processing_map k ≡ some i
      → length s.metrics_map.entries < s.metrics_map.max_entries
      → (lookup s'.http_processing_map k ≡ none)
        × (lookup s'.metrics_map k
            ≡ some (answered now (fragment_of skb (read_prefix skb offset).offset) i))
filter_response now skb t offset s i arrives phase waiting room =
    let k = compose_conn_key zero_key t http_request in
    rw
      (
        socket_filter_package-Arrives now skb (flip_tuple t) offset s arrives,
        read_http_info-response now skb t offset s phase,
      )
      (note_response-waiting now k (fragment_of skb (read_prefix skb offset).offset) s i waiting
        room)

answered-pending :
    (now1 now2 : ℕ) (m : HttpMethod) (fragment payload : List ℕ)
    → answered now2 payload (pending now1 m fragment) ≡ record {
      request_ts = now1;
      duration = sub64 now2 now1;
      status_code = read_status_code payload;
      method = m;
      request_fragment = fragment;
    }
unfolding answered
answered-pending now1 now2 m fragment payload = ground arith

-- A request with a known method whose source address is watched, then any packets of other
-- connections, then a response on the same connection in the other direction. Afterwards the
-- connection waits no more, and its metrics are the request's method, time and fragment with the
-- response's status and the time between the two. Both maps have room for their entry.
pub socket_filter_package-pairs :
    (t1 t2 : ℕ) (req resp : Skb) (t : ConnTuple) (o1 o2 : ℕ) (v : ℕ) (s : HttpState)
    (between : List (ℕ × Skb))
    → Arrives req t o1
    → (read_prefix req o1).phase ≡ http_request
    → (read_prefix req o1).method ≢ http_method_unknown
    → Arrives resp (flip_tuple t) o2
    → (read_prefix resp o2).phase ≡ http_response
    → let k = compose_conn_key zero_key t http_request in
      let s1 = socket_filter_package t1 req s in
      let s2 = filter_packets between s1 in
      let s3 = socket_filter_package t2 resp s2 in
      let x = read_prefix req o1 in
      All (OfOther k) between
      → lookup s.filter_map k.src_ip ≡ some v
      → length s.http_processing_map.entries < s.http_processing_map.max_entries
      → length s2.metrics_map.entries < s2.metrics_map.max_entries
      → (lookup s3.http_processing_map k ≡ none)
        × (lookup s3.metrics_map k
            ≡ some (record {
              request_ts = t1;
              duration = sub64 t2 t1;
              status_code = read_status_code (fragment_of resp (read_prefix resp o2).offset);
              method = x.method;
              request_fragment = fragment_of req x.offset;
            }))
socket_filter_package-pairs t1 t2 req resp t o1 o2 v s between arrives1 phase1 known arrives2 phase2
      others watched room1 room2 =
    let k = compose_conn_key zero_key t http_request in
    let x = read_prefix req o1 in
    let s1 = socket_filter_package t1 req s in
    let waiting = filter_request t1 req t o1 s v arrives1 phase1 known watched room1 in
    let kept = filter_packets-Agrees k between s1 others in
    let payload = fragment_of resp (read_prefix resp o2).offset in
    let done =
      filter_response t2 resp t o2 (filter_packets between s1)
        (pending t1 x.method (fragment_of req x.offset)) arrives2 phase2
        (kept.same_processing ∙ waiting) room2 in
    (done.0, done.1 ∙ ap some (answered-pending t1 t2 x.method (fragment_of req x.offset) payload))
