-- ===== src/Examples/Rpc.antt =====
-- Packets through the RPC filter.
use erda_agent.Base.{
  ℕ, nat_eq, ◌≡◌, ◌↔◌, refl, ap, subst, inl, List, [], ◌∷◌, ◌++◌, Option, none, some, true, false,
  codes, replicate, arith, ◌/◌, ◌^◌, ◌*◌,
}
use erda_agent.Maps.{empty, lookup}
use erda_agent.Packet.{
  ConnTuple, SkbInfo, sock_key_eq, sock_key_beq, tuple_eq, zero_tuple, read_conn_tuple_skb,
}
use erda_agent.Packet.Bytes.{of_bytes, of_bytes-Reads}
use erda_agent.Packet.Tuple.{flip_tuple}
use erda_agent.Sock.{Kernel, Task, connection_eq, parse_sock_info, find_msghdr_buf}
use erda_agent.Sock.Owner.{Probe, sendmsg, close, run}
use erda_agent.Rpc.Types.{RpcPackage, zero_package, p_request, p_response, payload_redis}
use erda_agent.Rpc.Redis.{is_redis}
use erda_agent.Rpc.Redis.Reply.{HasLine, is_redis-IsLine}
use erda_agent.Rpc.Dubbo.{is_dubbo_event, not_dubbo_event, judge_dubbo_protocol}
use erda_agent.Rpc.Dubbo.Flags.{judge_dubbo_protocol-flags}
use erda_agent.Rpc.Grpc.{Http2Frame, read_http2_frame_header}
use erda_agent.Rpc.Grpc.Frames.{frame_header, read_http2_frame_header-frame_header}
use erda_agent.Rpc.Amqp.{AmqpData, amqp_header_of, is_amqp}
use erda_agent.Rpc.Amqp.Methods.{method_frame, IsNamed, is_amqp-IsNamed}
use erda_agent.Rpc.Mysql.{is_version}
use erda_agent.Rpc.Mysql.Version.{IsVersion, is_version_iff}
use erda_agent.Rpc.Owner.{rpc_filter_package-names_sender}
use erda_agent.Rpc.Program.{RpcState, judge, add_addresses, rpc_filter_package, get_target_ip}
use erda_agent.Rpc.Others.{tuple_key, OtherTuple, filter_packets}
use erda_agent.Rpc.Traces.{IsTrace}
use erda_agent.Rpc.Pairing.{IsFiled, rpc_filter_package-pairs}
use erda_agent.Examples.Data.{packet_of, request_tuple}
use erda_agent.Examples.Sockets.{no_sockets}

abbrev ping_bytes : List ℕ
ping_bytes = packet_of 1 2 "*1\r\n$4\r\nPING\r\n"

abbrev pong_bytes : List ℕ
pong_bytes = packet_of 2 1 "+PONG\r\n"

abbrev other_bytes : List ℕ
other_bytes = packet_of 3 2 "*1\r\n$4\r\nPING\r\n"

abbrev no_packages : RpcState
no_packages = record {
  grpc_trace_map = empty 10240;
  grpc_request_map = empty 10240;
  filter_map = empty 1;
  amqp = record { amqp_filter_map = empty 1024; amqp_trace_map = empty 1024 };
  sock = no_sockets;
}

abbrev packet_info : SkbInfo
packet_info = record { data_off = 54; data_end = 14; tcp_seq = 0; tcp_flags = 0 }

abbrev ping_package : RpcPackage
ping_package = record zero_package {
  rpc_type = payload_redis;
  phase = p_request;
  path = codes "*1\r\n$4\r\nPING\r\n" ++ replicate 86 0;
}

abbrev pong_package : RpcPackage
pong_package = record zero_package {
  rpc_type = payload_redis;
  phase = p_response;
  status = b'O' ∷ [];
}

ping_filed :
    (s : RpcState)
    → IsFiled p_request (of_bytes ping_bytes) request_tuple packet_info ping_package s
unfolding of_bytes read_conn_tuple_skb judge add_addresses
ping_filed s = record {
  state = s;
  addressed = record ping_package { src_ip = 16777226; dst_ip = 33554442 };
  tuple_read = refl;
  judged = refl;
  has_addresses = refl;
  phase_eq = refl;
}

pong_filed :
    (s : RpcState)
    → IsFiled p_response (of_bytes pong_bytes) (flip_tuple request_tuple) packet_info pong_package s
unfolding of_bytes read_conn_tuple_skb judge add_addresses flip_tuple
pong_filed s = record {
  state = s;
  addressed = record pong_package { src_ip = 33554442; dst_ip = 16777226 };
  tuple_read = refl;
  judged = refl;
  has_addresses = refl;
  phase_eq = refl;
}

abbrev tuple_in : Option (SkbInfo × ConnTuple) → ConnTuple
tuple_in none = zero_tuple
tuple_in (some (info, t)) = t

other_tuple :
    (info : SkbInfo) (t : ConnTuple)
    → read_conn_tuple_skb (of_bytes other_bytes) zero_tuple ≡ some (info, t)
    → OtherTuple (tuple_key request_tuple) t
unfolding of_bytes read_conn_tuple_skb tuple_key flip_tuple sock_key_beq
other_tuple info t e = subst (OtherTuple (tuple_key request_tuple)) (ap tuple_in e) (refl, refl)

rpc_filter_package-pairs_example :
    let s1 = rpc_filter_package true 5 5 (of_bytes ping_bytes) no_packages in
    let s2 = filter_packets true ((6, 6, of_bytes other_bytes) ∷ []) s1 in
    let s3 = rpc_filter_package true 9 9 (of_bytes pong_bytes) s2 in
    (lookup s3.grpc_request_map (tuple_key request_tuple) ≡ none)
    × ((trace : RpcPackage) × (lookup s3.grpc_trace_map 0 ≡ some trace)
        × IsTrace request_tuple 5 9 ping_package pong_package trace)
unfolding filter_packets rpc_filter_package get_target_ip of_bytes read_conn_tuple_skb judge
    ping_filed
rpc_filter_package-pairs_example =
    let s1 = rpc_filter_package true 5 5 (of_bytes ping_bytes) no_packages in
    rpc_filter_package-pairs true 5 5 9 9 (of_bytes ping_bytes) (of_bytes pong_bytes) request_tuple
      packet_info packet_info ping_package pong_package no_packages
      ((6, 6, of_bytes other_bytes) ∷ []) (ping_filed no_packages)
      (pong_filed (filter_packets true ((6, 6, of_bytes other_bytes) ∷ []) s1)) (inl refl)
      (other_tuple, tt) (omega arith) (omega arith) refl refl

-- Sockets whose number is their port, to the port 2 of the other host.
abbrev host : Kernel
host = record {
  skc_family = λ sk. 2;
  skc_num = λ sk. sk;
  skc_rcv_saddr = λ sk. 16777226;
  skc_dport = λ sk. 512;
  skc_daddr = λ sk. 33554442;
  skc_v6_rcv_saddr = λ sk. 0;
  skc_v6_daddr = λ sk. 0;
  iter_type = λ msg. 0;
  iov = λ msg. msg;
  iov_base = λ iov. iov;
}

abbrev client : Task
client = record { pid_tgid = 7 * 2 ^ 32; comm = b'a' ∷ [] }

abbrev later_client : Task
later_client = record { pid_tgid = 8 * 2 ^ 32; comm = b'b' ∷ [] }

abbrev later_probes : List Probe
later_probes = sendmsg later_client 1 1 100 ∷ close later_client 6 ∷ []

rpc_filter_package-names_sender_example :
    let sock = run host (sendmsg client 1 1 100 ∷ later_probes) no_sockets in
    let s1 = record no_packages { sock = sock } in
    (request : RpcPackage) × (lookup
        (rpc_filter_package true 5 5 (of_bytes ping_bytes) s1).grpc_request_map
        (tuple_key request_tuple)
      ≡ some request)
    × (request.pid ≡ 7)
unfolding parse_sock_info find_msghdr_buf lookup get_target_ip ping_filed
rpc_filter_package-names_sender_example =
    let sock = run host (sendmsg client 1 1 100 ∷ later_probes) no_sockets in
    rpc_filter_package-names_sender host client 1 1 100 later_probes true 5 5 (of_bytes ping_bytes)
      request_tuple packet_info ping_package no_packages
      (ping_filed (record no_packages { sock = sock })) (λ e. absurd (omega (arith, e)))
      (λ e. absurd (omega (arith, e))) (λ e. absurd (omega (arith, e))) refl refl (omega arith)
      (tt, ((λ e. ground (arith, e)), tt)) (omega arith) (omega arith) (inl refl) (omega arith)

is_redis-IsLine_example :
    let result = is_redis (codes "+PONG\r\n") 7 zero_package in
    ((result.0 ≡ true) ↔ HasLine (codes "+PONG\r\n") 1 23)
    × (result.0 ≡ true → result.1 ≡ record zero_package { phase = p_response; status = b'O' ∷ [] })
is_redis-IsLine_example =
    is_redis-IsLine (codes "+PONG\r\n") 7 zero_package (omega arith) (inl refl)

abbrev dubbo_bytes : List ℕ
dubbo_bytes = 0xda ∷ 0xbb ∷ 0xe2 ∷ replicate 113 7

judge_dubbo_protocol-flags_example :
    let result = judge_dubbo_protocol (of_bytes dubbo_bytes) 0 zero_package in
    ((result.0 ≡ is_dubbo_event) ↔ (0xe2 / 2 ^ 5 ≡ 1))
    × (0xe2 / 2 ^ 7 ≡ 1
        → result ≡ (
          not_dubbo_event,
          record zero_package { phase = p_request; path = replicate 80 7 ++ replicate 20 0 },
        ))
judge_dubbo_protocol-flags_example =
    judge_dubbo_protocol-flags (of_bytes dubbo_bytes) dubbo_bytes 0 zero_package
      (of_bytes-Reads dubbo_bytes) (omega arith) (omega arith)

abbrev headers_frame : Http2Frame
headers_frame = record { length = 70000; frame_type = 1; flags = 4; stream_id = 16777219 }

read_http2_frame_header-frame_header_example :
    read_http2_frame_header (frame_header headers_frame) 9
    ≡ some (record { length = 70000; frame_type = 1; flags = 4; stream_id = 3 })
read_http2_frame_header-frame_header_example =
    read_http2_frame_header-frame_header headers_frame (omega arith) (omega arith) (omega arith)
      (omega arith)

is_amqp-IsNamed_example :
    let next : ℕ = 0 in
    let buf = method_frame (0, 1) (0, 9) 60 40 next (0 ∷ 0 ∷ []) in
    let result = is_amqp request_tuple buf 14 no_packages.amqp in
    ((result.0 ≡ true) ↔ ((next ≡ 0) × IsNamed 60 40))
    × (result.0 ≡ true
        → (entry : AmqpData) × (lookup (result.1).amqp_filter_map request_tuple ≡ some entry)
          × (entry.hdr ≡ amqp_header_of buf))
    × (result.0 ≡ false → result.1 ≡ no_packages.amqp)
is_amqp-IsNamed_example =
    is_amqp-IsNamed request_tuple (0, 1) (0, 9) 60 40 0 (0 ∷ 0 ∷ []) 14 no_packages.amqp
      (omega arith) (omega arith) (omega arith) (omega arith)

is_version_iff_example : (is_version (codes "8.0.33\0") 7 ≡ true) ↔ IsVersion (codes "8.0.33\0") 7
is_version_iff_example = is_version_iff (codes "8.0.33\0") 7 (omega arith)
