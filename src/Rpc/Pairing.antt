-- ===== src/Rpc/Pairing.antt =====
-- A request and its response through the RPC filter, with any packets of other connections between
-- them.
use erda_agent.Base.{
  ℕ, nat_eq, ◌<◌, ◌≡◌, refl, sym, ap, subst, ◌∙◌, ◌⊎◌, List, none, some, Bool, length, All, u32,
  arith,
}
use erda_agent.Maps.{lookup}
use erda_agent.Maps.Laws.{lookup-delete_self, lookup-update_self}
use erda_agent.Packet.{Skb, SkbInfo, ConnTuple, zero_tuple, sock_key_eq, read_conn_tuple_skb}
use erda_agent.Packet.Tuple.{flip_tuple}
use erda_agent.Rpc.Types.{PackagePhase, p_request, p_response, RpcPackage}
use erda_agent.Rpc.Program.{
  RpcState, filed, judge, add_addresses, add_ports, get_target_ip, request_key, answered_key,
  file_request, answer, file_response, file_phase, file_package, rpc_filter_package,
}
use erda_agent.Rpc.Judges.{SamePackages, judged_state, judge-Same}
use erda_agent.Rpc.Others.{
  tuple_key, PackageOf, add_ports-PackageOf, OfOther, filter_packets, filter_packets-other,
}
use erda_agent.Rpc.Traces.{IsTrace, answer-IsTrace}

-- The tests make a package of this phase of the packet, and its addresses can be read.
pub record IsFiled (phase : PackagePhase) (skb : Skb) (t : ConnTuple) (info : SkbInfo)
    (pkg : RpcPackage) (s : RpcState) : Type 0 where
  pub state : RpcState
  pub addressed : RpcPackage
  pub tuple_read : read_conn_tuple_skb skb zero_tuple ≡ some (info, t)
  pub judged : judge skb info t s ≡ filed pkg state
  pub has_addresses : add_addresses t pkg ≡ some addressed
  pub phase_eq : pkg.phase ≡ phase

-- The package that goes into the maps.
abbrev pub completed : ConnTuple → SkbInfo → RpcState → RpcPackage → RpcPackage
completed t info s pkg = add_ports t info s.sock pkg

rpc_filter_package-filed :
    (linked : Bool) (now1 now2 : ℕ) (phase : PackagePhase) (skb : Skb) (t : ConnTuple)
    (info : SkbInfo) (pkg : RpcPackage) (s : RpcState) (f : IsFiled phase skb t info pkg s)
    → rpc_filter_package linked now1 now2 skb s
      ≡ file_phase now1 info phase (completed t info f.state f.addressed) f.state
unfolding rpc_filter_package file_package PackageOf
rpc_filter_package-filed linked now1 now2 phase skb t info pkg s f =
    let p = add_ports-PackageOf t info f.state.sock pkg f.addressed f.has_addresses in
    rw (rpc_filter_package, f.tuple_read, f.judged, file_package, f.has_addresses, p.2 ∙ f.phase_eq)
      refl

pub judged-same :
    (phase : PackagePhase) (skb : Skb) (t : ConnTuple) (info : SkbInfo) (pkg : RpcPackage)
    (s : RpcState) (f : IsFiled phase skb t info pkg s)
    → SamePackages s f.state
judged-same phase skb t info pkg s f =
    subst (λ j. SamePackages s (judged_state j)) f.judged (judge-Same skb info t s)

file_request-waits :
    (now : ℕ) (pkg : RpcPackage) (s : RpcState)
    → (get_target_ip s ≡ 0) ⊎ (get_target_ip s ≡ pkg.src_ip)
    → length s.grpc_request_map.entries < s.grpc_request_map.max_entries
    → lookup (file_request now pkg s).grpc_request_map (request_key pkg)
      ≡ some (record pkg { duration = u32 now })
unfolding file_request
file_request-waits now pkg s target room = ground (
  arith,
  lookup-update_self s.grpc_request_map (request_key pkg) (record pkg { duration = u32 now }) room,
)

file_response-answers :
    (now : ℕ) (info : SkbInfo) (pkg request : RpcPackage) (s : RpcState)
    → lookup s.grpc_request_map (answered_key pkg) ≡ some request
    → length s.grpc_trace_map.entries < s.grpc_trace_map.max_entries
    → let s' = file_response now info pkg s in
      (lookup s'.grpc_request_map (answered_key pkg) ≡ none)
      × (lookup s'.grpc_trace_map info.tcp_seq ≡ some (answer now request pkg))
unfolding file_response
file_response-answers now info pkg request s waiting room =
    rw (file_response, waiting)
      (
        lookup-delete_self s.grpc_request_map (answered_key pkg),
        lookup-update_self s.grpc_trace_map info.tcp_seq (answer now request pkg) room,
      )

pub request_waits :
    (linked : Bool) (now1 now2 : ℕ) (skb : Skb) (t : ConnTuple) (info : SkbInfo) (pkg : RpcPackage)
    (s : RpcState) (f : IsFiled p_request skb t info pkg s)
    → (get_target_ip f.state ≡ 0) ⊎ (get_target_ip f.state ≡ (tuple_key t).src_ip)
    → length s.grpc_request_map.entries < s.grpc_request_map.max_entries
    → lookup (rpc_filter_package linked now1 now2 skb s).grpc_request_map (tuple_key t)
      ≡ some (record (completed t info f.state f.addressed) { duration = u32 now1 })
unfolding PackageOf request_key file_phase
request_waits linked now1 now2 skb t info pkg s f target room =
    let q = completed t info f.state f.addressed in
    let c = add_ports-PackageOf t info f.state.sock pkg f.addressed f.has_addresses in
    let same = judged-same p_request skb t info pkg s f in
    let target' : (get_target_ip f.state ≡ 0) ⊎ (get_target_ip f.state ≡ q.src_ip) =
      subst (λ k. (get_target_ip f.state ≡ 0) ⊎ (get_target_ip f.state ≡ k.src_ip)) (sym (c.0))
        target in
    let room' = subst (λ m. length m.entries < m.max_entries) (sym same.same_requests) room in
    subst
      (λ k.
        lookup (rpc_filter_package linked now1 now2 skb s).grpc_request_map k
        ≡ some (record q { duration = u32 now1 }))
      (c.0)
      (ap (λ x. lookup x.grpc_request_map (request_key q))
          (rpc_filter_package-filed linked now1 now2 p_request skb t info pkg s f)
        ∙ file_request-waits now1 q f.state target' room')

response_answers :
    (linked : Bool) (now1 now2 : ℕ) (skb : Skb) (t : ConnTuple) (info : SkbInfo)
    (pkg request : RpcPackage) (s : RpcState) (f : IsFiled p_response skb (flip_tuple t) info pkg s)
    → lookup s.grpc_request_map (tuple_key t) ≡ some request
    → length s.grpc_trace_map.entries < s.grpc_trace_map.max_entries
    → let s' = rpc_filter_package linked now1 now2 skb s in
      (lookup s'.grpc_request_map (tuple_key t) ≡ none)
      × (lookup s'.grpc_trace_map info.tcp_seq
          ≡ some (answer now1 request (completed (flip_tuple t) info f.state f.addressed)))
unfolding PackageOf file_phase flip_tuple
response_answers linked now1 now2 skb t info pkg request s f waiting room =
    let q = completed (flip_tuple t) info f.state f.addressed in
    let c = add_ports-PackageOf (flip_tuple t) info f.state.sock pkg f.addressed f.has_addresses in
    let same = judged-same p_response skb (flip_tuple t) info pkg s f in
    let room' = subst (λ m. length m.entries < m.max_entries) (sym same.same_traces) room in
    let waiting' : lookup f.state.grpc_request_map (answered_key q) ≡ some request =
      ap (λ m. lookup m (answered_key q)) same.same_requests
      ∙ ap (λ k. lookup s.grpc_request_map k) (c.1)
      ∙ waiting in
    let a = file_response-answers now1 info q request f.state waiting' room' in
    let e = rpc_filter_package-filed linked now1 now2 p_response skb (flip_tuple t) info pkg s f in
    (
      subst (λ k. lookup (rpc_filter_package linked now1 now2 skb s).grpc_request_map k ≡ none)
          (c.1) (ap (λ x. lookup x.grpc_request_map (answered_key q)) e ∙ a.0),
      ap (λ x. lookup x.grpc_trace_map info.tcp_seq) e ∙ a.1,
    )

-- A request from the address to watch, if there is one, then any packets of other connections, then
-- a response on the same connection in the other direction. Afterwards the request waits no more,
-- and the trace under the response's sequence number has the addresses and the path of the request,
-- the statuses of the response and the time between the two. The paths are of 100 bytes, and both
-- maps have room for their entry.
pub rpc_filter_package-pairs :
    (linked : Bool) (t1 t1' t2 t2' : ℕ) (req resp : Skb) (t : ConnTuple) (info1 info2 : SkbInfo)
    (p1 p2 : RpcPackage) (s : RpcState) (between : List (ℕ × ℕ × Skb))
    → let s1 = rpc_filter_package linked t1 t1' req s in
      let s2 = filter_packets linked between s1 in
      let s3 = rpc_filter_package linked t2 t2' resp s2 in
      (f1 : IsFiled p_request req t info1 p1 s)
      → IsFiled p_response resp (flip_tuple t) info2 p2 s2
      → (get_target_ip f1.state ≡ 0) ⊎ (get_target_ip f1.state ≡ (tuple_key t).src_ip)
      → All (λ p. OfOther (tuple_key t) p.2) between
      → length s.grpc_request_map.entries < s.grpc_request_map.max_entries
      → length s2.grpc_trace_map.entries < s2.grpc_trace_map.max_entries
      → length p1.path ≡ 100
      → length p2.path ≡ 100
      → (lookup s3.grpc_request_map (tuple_key t) ≡ none)
        × ((trace : RpcPackage) × (lookup s3.grpc_trace_map info2.tcp_seq ≡ some trace)
            × IsTrace t t1 t2 p1 p2 trace)
rpc_filter_package-pairs linked t1 t1' t2 t2' req resp t info1 info2 p1 p2 s between f1 f2 target
      others room1 room2 size1 size2 =
    let s1 = rpc_filter_package linked t1 t1' req s in
    let s2 = filter_packets linked between s1 in
    let q1 = completed t info1 f1.state f1.addressed in
    let q2 = completed (flip_tuple t) info2 f2.state f2.addressed in
    let c1 = add_ports-PackageOf t info1 f1.state.sock p1 f1.addressed f1.has_addresses in
    let c2 =
      add_ports-PackageOf (flip_tuple t) info2 f2.state.sock p2 f2.addressed f2.has_addresses in
    let waiting =
      filter_packets-other (tuple_key t) linked between s1 others
      ∙ request_waits linked t1 t1' req t info1 p1 s f1 target room1 in
    let q : RpcPackage = record q1 { duration = u32 t1 } in
    let done = response_answers linked t2 t2' resp t info2 p2 q s2 f2 waiting room2 in
    let trace = answer-IsTrace t t1 t2 p1 p2 q1 q2 c1 c2 size1 size2 in
    (done.0, (answer t2 q q2, done.1, trace))
