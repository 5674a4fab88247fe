-- ===== src/Examples/Http.antt =====
-- A request and its response through the HTTP filter.
use erda_agent.Base.{
  ℕ, nat_eq, ◌≡◌, ◌≤◌, ◌↔◌, refl, List, [], ◌∷◌, ◌++◌, none, some, true, codes, replicate, drop,
  starts_with, arith,
}
use erda_agent.Maps.{empty, lookup}
use erda_agent.Packet.{sock_key_eq, sock_key_beq, read_conn_tuple_skb}
use erda_agent.Packet.Bytes.{of_bytes, of_bytes-Reads, of_bytes-Fills}
use erda_agent.Packet.Tuple.{flip_tuple}
use erda_agent.Http.{
  HttpState, http_get, http_response, http_request, read_prefix, is_drop_packet, compose_conn_key,
  zero_key, socket_filter_package, read_status_code, load_http_payload,
}
use erda_agent.Http.Payload.{load_http_payload-eq-slice}
use erda_agent.Http.Classify.{read_prefix-IsRequestLine}
use erda_agent.Http.Methods.{begins_with_method, method_name}
use erda_agent.Http.Status.{read_status_code-eq-decimal, decimal_status}
use erda_agent.Http.Pairing.{Arrives, filter_packets, socket_filter_package-pairs}
use erda_agent.Http.Keeps.{conn_key}
use erda_agent.Http.Invariant.{IsValid, socket_filter_package-IsValid}
use erda_agent.Examples.Data.{packet_of, request_tuple}

abbrev request_bytes : List ℕ
request_bytes = packet_of 1 2 "GET /a HTTP/1.1"

abbrev response_bytes : List ℕ
response_bytes = packet_of 2 1 "HTTP/1.1 404 No"

abbrev other_bytes : List ℕ
other_bytes = packet_of 3 2 "GET /b HTTP/1.1"

abbrev watching : HttpState
watching = record {
  filter_map = record { max_entries = 1; entries = (16777226, 1) ∷ [] };
  http_processing_map = empty 16384;
  metrics_map = empty 16384;
}

load_http_payload-eq-slice_example :
    load_http_payload (of_bytes request_bytes) 58 (replicate 224 0)
    ≡ codes "/a HTTP/1.1" ++ replicate 213 0
load_http_payload-eq-slice_example =
    load_http_payload-eq-slice (of_bytes request_bytes) request_bytes 58 (replicate 224 0)
      (of_bytes-Reads request_bytes) refl (omega arith) (omega arith)

read_prefix-IsRequestLine_example :
    let x = read_prefix (of_bytes request_bytes) 54 in
    let payload = drop 54 request_bytes in
    ((x.phase ≡ http_response) ↔ (starts_with (codes "HTTP") payload ≡ true))
    × ((x.method ≡ http_get) ↔ (begins_with_method http_get payload ≡ true))
    × (x.method ≡ http_get → x.offset ≡ 58)
unfolding method_name
read_prefix-IsRequestLine_example =
    read_prefix-IsRequestLine (of_bytes request_bytes) request_bytes 54 http_get
      (of_bytes-Reads request_bytes) (omega arith) (omega arith) (λ e. ground (arith, e))

read_status_code-eq-decimal_example :
    ((v : ℕ)
      → decimal_status (codes "HTTP/1.1 404 No") ≡ some v
      → read_status_code (codes "HTTP/1.1 404 No") ≡ v)
    × (decimal_status (codes "HTTP/1.1 404 No") ≡ none
        → 255 ≤ read_status_code (codes "HTTP/1.1 404 No"))
read_status_code-eq-decimal_example = read_status_code-eq-decimal (codes "HTTP/1.1 404 No")

request_bytes-Arrives : Arrives (of_bytes request_bytes) request_tuple 54
unfolding of_bytes read_conn_tuple_skb is_drop_packet
request_bytes-Arrives = record {
  info = record { data_off = 54; data_end = 14; tcp_seq = 0; tcp_flags = 0 };
  tuple_read = refl;
  payload_at = refl;
  is_tcp = refl;
}

response_bytes-Arrives : Arrives (of_bytes response_bytes) (flip_tuple request_tuple) 54
unfolding of_bytes read_conn_tuple_skb is_drop_packet flip_tuple
response_bytes-Arrives = record {
  info = record { data_off = 54; data_end = 14; tcp_seq = 0; tcp_flags = 0 };
  tuple_read = refl;
  payload_at = refl;
  is_tcp = refl;
}

socket_filter_package-pairs_example :
    let s1 = socket_filter_package 5 (of_bytes request_bytes) watching in
    let s2 = filter_packets ((6, of_bytes other_bytes) ∷ []) s1 in
    let s3 = socket_filter_package 9 (of_bytes response_bytes) s2 in
    let k = compose_conn_key zero_key request_tuple http_request in
    (lookup s3.http_processing_map k ≡ none)
    × (lookup s3.metrics_map k
        ≡ some (record {
          request_ts = 5;
          duration = 4;
          status_code = 404;
          method = http_get;
          request_fragment = codes "/a HTTP/1.1" ++ replicate 213 0;
        }))
unfolding of_bytes read_conn_tuple_skb socket_filter_package read_prefix load_http_payload
    compose_conn_key conn_key read_status_code sock_key_beq filter_packets
socket_filter_package-pairs_example =
    socket_filter_package-pairs 5 9 (of_bytes request_bytes) (of_bytes response_bytes) request_tuple
      54 54 1 watching ((6, of_bytes other_bytes) ∷ []) request_bytes-Arrives refl
      (λ e. ground (arith, e)) response_bytes-Arrives refl (refl, tt) refl (omega arith)
      (omega arith)

watching-IsValid : IsValid watching
watching-IsValid = record {
  processing = record { each = tt; limit = omega arith };
  metrics = record { each = tt; limit = omega arith };
}

socket_filter_package-IsValid_example :
    IsValid (socket_filter_package 5 (of_bytes request_bytes) watching)
socket_filter_package-IsValid_example =
    socket_filter_package-IsValid 5 (of_bytes request_bytes) watching (of_bytes-Fills request_bytes)
      watching-IsValid
