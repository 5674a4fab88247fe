-- ===== src/Rpc/Owner.antt =====
-- The process that a request names is the owner of its connection.
use erda_agent.Base.{
  ℕ, ◌/◌, ◌^◌, ◌<◌, ◌≡◌, ◌≢◌, ◌⊎◌, refl, ap, none, some, bswap16, u32, arith, ◌∙◌, List, ◌∷◌, Bool,
  All, length,
}
use erda_agent.Maps.{lookup}
use erda_agent.Packet.{Skb, ConnTuple, SkbInfo, sock_key_eq}
use erda_agent.Sock.{
  ConnectionInfo, ConnectionPidInfo, SockState, Kernel, Task, connection_eq, get_pid_info, owner_of,
  parse_sock_info, find_msghdr_buf,
}
use erda_agent.Sock.Owner.{Probe, sendmsg, run, Spares, owner, run-first_sender}
use erda_agent.Rpc.Types.{RpcPackage, p_request}
use erda_agent.Rpc.Program.{RpcState, add_ports, get_target_ip, rpc_filter_package}
use erda_agent.Rpc.Others.{tuple_key}
use erda_agent.Rpc.Pairing.{IsFiled, completed, judged-same, request_waits}

-- The bytes are swapped for the package and swapped back for the lookup.
bswap16-bswap16 : (x : ℕ) → x < 2 ^ 16 → bswap16 (bswap16 x) ≡ x
bswap16-bswap16 x h = omega arith

abbrev pub connection_of : ConnTuple → RpcPackage → ConnectionInfo
connection_of t pkg = record {
  s_port = t.sport;
  d_port = t.dport;
  s_addr = pkg.src_ip;
  d_addr = pkg.dst_ip;
}

get_pid_info-connection_of :
    (t : ConnTuple) (pkg : RpcPackage) (s : SockState)
    → t.sport < 2 ^ 16
    → t.dport < 2 ^ 16
    → get_pid_info pkg.src_ip pkg.dst_ip (bswap16 t.sport) (bswap16 t.dport) s
      ≡ lookup s.filtered_connections (connection_of t pkg)
unfolding get_pid_info
get_pid_info-connection_of t pkg s h k =
    rw (bswap16-bswap16 t.sport h, bswap16-bswap16 t.dport k) refl

-- A package of a connection that has an owner names it.
add_ports-names_owner :
    (t : ConnTuple) (info : SkbInfo) (s : SockState) (pkg : RpcPackage) (i : ConnectionPidInfo)
    → t.sport < 2 ^ 16
    → t.dport < 2 ^ 16
    → lookup s.filtered_connections (connection_of t pkg) ≡ some i
    → (add_ports t info s pkg).pid ≡ i.pid
unfolding add_ports
add_ports-names_owner t info s pkg i h k owned =
    rw (add_ports, get_pid_info-connection_of t pkg s h k ∙ owned) refl

-- A task sends on a connection without an owner (some bytes, from a buffer, with room in the map);
-- after any further probes that close no socket of the connection, the RPC filter files a packet of
-- the connection as a request. The request that then waits names this task, whatever other tasks
-- have sent on the connection (ports below 2 ^ 16, the request comes from the address to watch if
-- there is one, its map has room).
pub rpc_filter_package-names_sender :
    (kernel : Kernel) (task : Task) (sk msg size : ℕ) (ps : List Probe) (linked : Bool)
    (now1 now2 : ℕ) (skb : Skb) (t : ConnTuple) (info : SkbInfo) (pkg : RpcPackage) (s : RpcState)
    → let s1 = record s { sock = run kernel (sendmsg task sk msg size ∷ ps) s.sock } in
      (f : IsFiled p_request skb t info pkg s1)
      → let conn = connection_of t f.addressed in
        task.pid_tgid ≢ 0
        → size ≢ 0
        → find_msghdr_buf kernel msg ≢ 0
        → parse_sock_info kernel sk ≡ some conn
        → owner s.sock conn ≡ none
        → length s.sock.filtered_connections.entries < s.sock.filtered_connections.max_entries
        → All (Spares kernel conn) ps
        → t.sport < 2 ^ 16
        → t.dport < 2 ^ 16
        → (get_target_ip f.state ≡ 0) ⊎ (get_target_ip f.state ≡ (tuple_key t).src_ip)
        → length s.grpc_request_map.entries < s.grpc_request_map.max_entries
        → (request : RpcPackage) × (lookup
              (rpc_filter_package linked now1 now2 skb s1).grpc_request_map
              (tuple_key t)
            ≡ some request)
          × (request.pid ≡ u32 (task.pid_tgid / 2 ^ 32))
rpc_filter_package-names_sender kernel task sk msg size ps linked now1 now2 skb t info pkg s f id
      some_bytes buffer parsed fresh room spare sport dport target room_requests =
    let conn = connection_of t f.addressed in
    let s1 = record s { sock = run kernel (sendmsg task sk msg size ∷ ps) s.sock } in
    let owned =
      run-first_sender kernel task sk msg size conn s.sock ps id some_bytes buffer parsed fresh room
        spare in
    let same = judged-same p_request skb t info pkg s1 f in
    let owned' : lookup f.state.sock.filtered_connections conn ≡ some (owner_of task) =
      ap (λ m. lookup m conn) same.same_owners ∙ owned in
    (
      record (completed t info f.state f.addressed) { duration = u32 now1 },
      request_waits linked now1 now2 skb t info pkg s1 f target room_requests,
      add_ports-names_owner t info f.state.sock f.addressed (owner_of task) sport dport owned',
    )
