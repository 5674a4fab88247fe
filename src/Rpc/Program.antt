-- ===== src/Rpc/Program.antt =====
-- The program `rpc__filter_package` of ebpf/plugins/rpc/main.c. Its result, 0 or -1, is not
-- modelled: it only says whether the packet is copied to the socket.
use erda_agent.Base.{
  ℕ, Option, none, some, Bool, true, not, ◌&&◌, ◌==◌, if◌then◌else◌, u32, sub64, bswap16, nat_eq,
  take, splice,
}
use erda_agent.Maps.{HashMap, lookup, update, delete}
use erda_agent.Packet.{
  Skb, SkbInfo, ConnTuple, SockKey, sock_key_eq, zero_tuple, read_conn_tuple_skb, eth_p_ip,
  eth_p_ipv6,
}
use erda_agent.Sock.{ConnectionInfo, SockState, connection_eq, get_pid_info}
use erda_agent.Rpc.Types.{
  PackagePhase, p_unknown, p_request, p_response, RpcStatus, payload_grpc, payload_dubbo,
  payload_mysql, payload_redis, eth_type_ipv4, eth_type_ipv6, RpcPackage, zero_package,
  ClassificationBuffer, init_buffer, memory, max_http2_path_content_length,
}
use erda_agent.Rpc.Mysql.{is_mysql}
use erda_agent.Rpc.Redis.{is_redis}
use erda_agent.Rpc.Dubbo.{is_dubbo_magic, is_dubbo_event, judge_dubbo_protocol}
use erda_agent.Rpc.Grpc.{judge_rpc}
use erda_agent.Rpc.Amqp.{AmqpState, is_amqp}
use erda_agent.Rpc.Amqp.Events.{socket_amqp_filter}

-- The maps of the program, with those of AMQP and of the probes on sockets.
pub record RpcState : Type 0 where
  pub grpc_trace_map : HashMap ℕ RpcPackage
  pub grpc_request_map : HashMap SockKey RpcPackage
  pub filter_map : HashMap ℕ ℕ
  pub amqp : AmqpState
  pub sock : SockState

-- What the tests make of a packet: nothing more is done with it, or it is left to the AMQP filter,
-- or its package is filed.
pub data Judged : Type 0 where
  dropped : RpcState → Judged
  to_amqp : RpcState → Judged
  filed : RpcPackage → RpcState → Judged

abbrev pub grpc_connection_of : ConnTuple → ConnectionInfo
grpc_connection_of t = record {
  s_port = t.sport;
  d_port = t.dport;
  s_addr = u32 t.saddr_l;
  d_addr = u32 t.daddr_l;
}

-- The last branch. The mark of a connection is converted from the pointer to it.
unfoldable pub judge_grpc : ConnTuple → RpcStatus × RpcPackage → RpcState → Judged
unfolding lookup update
judge_grpc t (payload_grpc, pkg) s =
    filed (record pkg { rpc_type = payload_grpc })
      (record s {
        sock = record (s.sock) {
          grpc_connections = update s.sock.grpc_connections (grpc_connection_of t) true;
        };
      })
judge_grpc t (status, pkg) s = elim (lookup s.sock.grpc_connections (grpc_connection_of t)) [
  | none ↦ dropped s
  | some _ ↦ filed (record pkg { rpc_type = payload_grpc }) s
]

-- The branches behind the one for Dubbo, in their order; a test that fails leaves the package.
unfoldable pub judge_buffer : Skb → SkbInfo → ConnTuple → ClassificationBuffer → RpcState → Judged
unfolding memory is_mysql is_redis is_amqp judge_rpc judge_grpc
judge_buffer skb info t b s =
    let mysql = is_mysql (memory b) b.size zero_package in
    let redis = is_redis (memory b) b.size (mysql.1) in
    let amqp = is_amqp t (memory b) b.size s.amqp in
    if mysql.0
    then filed (record (mysql.1) { rpc_type = payload_mysql }) s
    else if redis.0
    then filed (record (redis.1) { rpc_type = payload_redis }) s
    else if amqp.0
    then to_amqp (record s { amqp = amqp.1 })
    else judge_grpc t (judge_rpc skb info.data_off (redis.1)) s

unfoldable pub judge : Skb → SkbInfo → ConnTuple → RpcState → Judged
unfolding init_buffer is_dubbo_magic judge_dubbo_protocol judge_buffer
judge skb info t s =
    let dubbo = judge_dubbo_protocol skb info.data_off zero_package in
    if is_dubbo_magic skb info.data_off
    then (if dubbo.0 == is_dubbo_event
        then dropped s
        else filed (record (dubbo.1) { rpc_type = payload_dubbo }) s)
    else judge_buffer skb info t (init_buffer skb info) s

-- The addresses of the package; `none` where the program returns because of the protocol.
unfoldable pub add_addresses : ConnTuple → RpcPackage → Option RpcPackage
add_addresses t pkg =
    if t.l3_proto == eth_p_ip
    then some
        (record pkg { src_ip = u32 t.saddr_l; dst_ip = u32 t.daddr_l; ip_type = eth_type_ipv4 })
    else if t.l3_proto == eth_p_ipv6
    then some
        (record pkg { src_ip = u32 t.saddr_h; dst_ip = u32 t.daddr_h; ip_type = eth_type_ipv6 })
    else none

-- The ports, the sequence number and the owner of the connection.
unfoldable pub add_ports : ConnTuple → SkbInfo → SockState → RpcPackage → RpcPackage
unfolding get_pid_info
add_ports t info sock pkg =
    let src_port = bswap16 t.sport in
    let dst_port = bswap16 t.dport in
    record pkg {
      src_port = src_port;
      dst_port = dst_port;
      seq = bswap16 info.tcp_seq;
      pid = elim (get_pid_info pkg.src_ip pkg.dst_ip src_port dst_port sock) [
        | none ↦ pkg.pid
        | some owner ↦ owner.pid
      ];
    }

-- `__get_target_ip`
unfoldable pub get_target_ip : RpcState → ℕ
unfolding lookup
get_target_ip s = elim (lookup s.filter_map 1) [ none ↦ 0 | some ip ↦ ip ]

-- The key of a package, and of the request that it answers.
unfoldable pub request_key : RpcPackage → SockKey
request_key pkg = record {
  src_ip = pkg.src_ip;
  dst_ip = pkg.dst_ip;
  src_port = pkg.src_port;
  dst_port = pkg.dst_port;
}

unfoldable pub answered_key : RpcPackage → SockKey
answered_key pkg = record {
  src_ip = pkg.dst_ip;
  dst_ip = pkg.src_ip;
  src_port = pkg.dst_port;
  dst_port = pkg.src_port;
}

-- A request waits for its response, with the time in place of the duration.
unfoldable pub file_request : ℕ → RpcPackage → RpcState → RpcState
unfolding get_target_ip request_key update
file_request now pkg s =
    if not (get_target_ip s == 0) && not (get_target_ip s == pkg.src_ip) then s else record s {
      grpc_request_map =
          update s.grpc_request_map (request_key pkg) (record pkg { duration = u32 now });
    }

-- What a response becomes with the request that it answers.
unfoldable pub answer : ℕ → RpcPackage → RpcPackage → RpcPackage
unfolding answered_key
answer now request pkg =
    let k = answered_key pkg in
    record pkg {
      src_ip = k.src_ip;
      dst_ip = k.dst_ip;
      src_port = k.src_port;
      dst_port = k.dst_port;
      duration = u32 (sub64 now request.duration);
      path_len = request.path_len;
      path = splice 0 (take max_http2_path_content_length request.path) pkg.path;
    }

unfoldable pub file_response : ℕ → SkbInfo → RpcPackage → RpcState → RpcState
unfolding answered_key answer lookup update delete
file_response now info pkg s = elim (lookup s.grpc_request_map (answered_key pkg)) [
  | none ↦ s
  | some request ↦ record s {
    grpc_request_map = delete s.grpc_request_map (answered_key pkg);
    grpc_trace_map = update s.grpc_trace_map info.tcp_seq (answer now request pkg);
  }
]

unfoldable pub file_phase : ℕ → SkbInfo → PackagePhase → RpcPackage → RpcState → RpcState
unfolding file_request file_response
file_phase now info p_request pkg s = file_request now pkg s
file_phase now info p_response pkg s = file_response now info pkg s
file_phase now info p_unknown pkg s = s

-- What follows the tests.
unfoldable pub file_package : ℕ → SkbInfo → ConnTuple → RpcPackage → RpcState → RpcState
unfolding add_addresses add_ports file_phase
file_package now info t pkg s = elim (add_addresses t pkg) [
  | none ↦ s
  | some pkg1 ↦ let pkg2 = add_ports t info s.sock pkg1 in file_phase now info pkg2.phase pkg2 s
]

-- `rpc__filter_package`. The clock is read once at most before the tail call, which leads to the
-- AMQP filter if the program array holds it.
unfoldable pub rpc_filter_package : Bool → ℕ → ℕ → Skb → RpcState → RpcState
unfolding read_conn_tuple_skb judge file_package socket_amqp_filter
rpc_filter_package linked now1 now2 skb s = elim (read_conn_tuple_skb skb zero_tuple) [
  | none ↦ s
  | some (info, t) ↦ elim (judge skb info t s) [
    | dropped s' ↦ s'
    | to_amqp s' ↦
        if linked then record s' { amqp = socket_amqp_filter now1 now2 skb s'.amqp } else s'
    | filed pkg s' ↦ file_package now1 info t pkg s'
  ]
]
