-- ===== src/Rpc/Others.antt =====
-- What packets of other connections do to a request that waits in `grpc_request_map` of the RPC
-- filter (ebpf/plugins/rpc/main.c).
use erda_agent.Base.{
  ℕ, nat_eq, ◌≡◌, refl, sym, ap, ◌∙◌, inl, inr, List, [], ◌∷◌, Option, some, Bool, true, false,
  ◌==◌, All, u32, bswap16, arith, Option-cases, if◌then◌else◌,
}
use erda_agent.Maps.{lookup}
use erda_agent.Maps.Laws.{lookup-delete_other, lookup-update_other}
use erda_agent.Packet.{
  Skb, SkbInfo, SockKey, ConnTuple, zero_tuple, eth_p_ip, sock_key_eq, sock_key_beq,
  read_conn_tuple_skb,
}
use erda_agent.Packet.Tuple.{flip_tuple}
use erda_agent.Sock.{SockState}
use erda_agent.Rpc.Types.{PackagePhase, p_unknown, p_request, p_response, RpcPackage}
use erda_agent.Rpc.Program.{
  RpcState, Judged, dropped, to_amqp, filed, judge, add_addresses, add_ports, request_key,
  answered_key, file_request, file_response, file_phase, file_package, rpc_filter_package,
}
use erda_agent.Rpc.Judges.{judged_state, judge-Same}

-- What the packets of a connection are filed under, as requests.
unfoldable pub tuple_key : ConnTuple → SockKey
tuple_key t =
    let ipv4 = t.l3_proto == eth_p_ip in
    record {
      src_ip = if ipv4 then u32 t.saddr_l else u32 t.saddr_h;
      dst_ip = if ipv4 then u32 t.daddr_l else u32 t.daddr_h;
      src_port = bswap16 t.sport;
      dst_port = bswap16 t.dport;
    }

-- A packet's package, with its addresses and ports.
unfoldable pub PackageOf : ConnTuple → RpcPackage → RpcPackage → Type 0
PackageOf t pkg pkg' =
    (request_key pkg' ≡ tuple_key t)
    × (answered_key pkg' ≡ tuple_key (flip_tuple t))
    × (pkg'.phase ≡ pkg.phase)
    × (pkg'.path ≡ pkg.path)
    × (pkg'.path_len ≡ pkg.path_len)
    × (pkg'.status ≡ pkg.status)
    × (pkg'.dubbo_status ≡ pkg.dubbo_status)
    × (pkg'.mysql_status ≡ pkg.mysql_status)

pub add_ports-PackageOf :
    (t : ConnTuple) (info : SkbInfo) (sock : SockState) (pkg pkg1 : RpcPackage)
    → add_addresses t pkg ≡ some pkg1
    → PackageOf t pkg (add_ports t info sock pkg1)
unfolding add_addresses add_ports PackageOf request_key answered_key tuple_key flip_tuple
add_ports-PackageOf t info sock pkg pkg1 e = ground arith

module _ (k : SockKey) where
  -- The connection is another one than that of k.
  abbrev pub OtherTuple : ConnTuple → Type 0
  OtherTuple t =
      (sock_key_beq (tuple_key t) k ≡ false) × (sock_key_beq (tuple_key (flip_tuple t)) k ≡ false)

  abbrev waits : RpcState → Option RpcPackage
  waits s = lookup s.grpc_request_map k

  file_request-other :
      (now : ℕ) (pkg : RpcPackage) (s : RpcState)
      → sock_key_beq (request_key pkg) k ≡ false
      → waits (file_request now pkg s) ≡ waits s
  unfolding file_request
  file_request-other now pkg s other = ground (
    arith,
    lookup-update_other s.grpc_request_map (request_key pkg) k (record pkg { duration = u32 now })
        other,
  )

  file_response-other :
      (now : ℕ) (info : SkbInfo) (pkg : RpcPackage) (s : RpcState)
      → sock_key_beq (answered_key pkg) k ≡ false
      → waits (file_response now info pkg s) ≡ waits s
  unfolding file_response
  file_response-other now info pkg s other =
      elim (Option-cases (lookup s.grpc_request_map (answered_key pkg))) [
        | inl e ↦ rw (file_response, e) refl
        | inr (_, e) ↦
            rw (file_response, e)
              (lookup-delete_other s.grpc_request_map (answered_key pkg) k other)
      ]

  file_phase-other :
      (now : ℕ) (info : SkbInfo) (phase : PackagePhase) (pkg : RpcPackage) (s : RpcState)
      → sock_key_beq (request_key pkg) k ≡ false
      → sock_key_beq (answered_key pkg) k ≡ false
      → waits (file_phase now info phase pkg s) ≡ waits s
  unfolding file_phase
  file_phase-other now info p_unknown pkg s r a = refl
  file_phase-other now info p_request pkg s r a = file_request-other now pkg s r
  file_phase-other now info p_response pkg s r a = file_response-other now info pkg s a

  file_package-other :
      (now : ℕ) (info : SkbInfo) (t : ConnTuple) (pkg : RpcPackage) (s : RpcState)
      → OtherTuple t
      → waits (file_package now info t pkg s) ≡ waits s
  unfolding file_package PackageOf
  file_package-other now info t pkg s (r, a) = elim (Option-cases (add_addresses t pkg)) [
    | inl e ↦ rw (file_package, e) refl
    | inr (pkg1, e) ↦
        let pkg2 = add_ports t info s.sock pkg1 in
        let p = add_ports-PackageOf t info s.sock pkg pkg1 e in
        rw (file_package, e)
          (file_phase-other now info pkg2.phase pkg2 s (ap (λ j. sock_key_beq j k) (p.0) ∙ r)
            (ap (λ j. sock_key_beq j k) (p.1) ∙ a))
  ]

  judge-waits :
      (skb : Skb) (info : SkbInfo) (t : ConnTuple) (s : RpcState)
      → waits (judged_state (judge skb info t s)) ≡ waits s
  judge-waits skb info t s = ap (λ m. lookup m k) (judge-Same skb info t s).same_requests

  -- What follows the judgement.
  after_judge-other :
      (linked : Bool) (now1 now2 : ℕ) (skb : Skb) (info : SkbInfo) (t : ConnTuple) (s : RpcState)
      (j : Judged)
      → read_conn_tuple_skb skb zero_tuple ≡ some (info, t)
      → judge skb info t s ≡ j
      → OtherTuple t
      → waits (rpc_filter_package linked now1 now2 skb s) ≡ waits s
  unfolding rpc_filter_package
  after_judge-other linked now1 now2 skb info t s (dropped s') e ej other =
      rw (rpc_filter_package, e, ej)
        (sym (ap (λ x. waits (judged_state x)) ej) ∙ judge-waits skb info t s)
  after_judge-other true now1 now2 skb info t s (to_amqp s') e ej other =
      rw (rpc_filter_package, e, ej)
        (sym (ap (λ x. waits (judged_state x)) ej) ∙ judge-waits skb info t s)
  after_judge-other false now1 now2 skb info t s (to_amqp s') e ej other =
      rw (rpc_filter_package, e, ej)
        (sym (ap (λ x. waits (judged_state x)) ej) ∙ judge-waits skb info t s)
  after_judge-other linked now1 now2 skb info t s (filed pkg s') e ej other =
      rw (rpc_filter_package, e, ej)
        (file_package-other now1 info t pkg s' other
          ∙ sym (ap (λ x. waits (judged_state x)) ej)
          ∙ judge-waits skb info t s)

  -- A packet of another connection, or of none.
  abbrev pub OfOther : Skb → Type 0
  OfOther skb =
      (info : SkbInfo) (t : ConnTuple)
      → read_conn_tuple_skb skb zero_tuple ≡ some (info, t)
      → OtherTuple t

  rpc_filter_package-other :
      (linked : Bool) (now1 now2 : ℕ) (skb : Skb) (s : RpcState)
      → OfOther skb
      → waits (rpc_filter_package linked now1 now2 skb s) ≡ waits s
  unfolding rpc_filter_package
  rpc_filter_package-other linked now1 now2 skb s other =
      elim (Option-cases (read_conn_tuple_skb skb zero_tuple)) [
        | inl e ↦ rw (rpc_filter_package, e) refl
        | inr ((info, t), e) ↦
            after_judge-other linked now1 now2 skb info t s (judge skb info t s) e refl
              (other info t e)
      ]

-- The filter on the packets that arrive, each with its two readings of the clock.
unfoldable pub filter_packets : Bool → List (ℕ × ℕ × Skb) → RpcState → RpcState
unfolding rpc_filter_package
filter_packets linked [] s = s
filter_packets linked ((now1, now2, skb) ∷ packets) s =
    filter_packets linked packets (rpc_filter_package linked now1 now2 skb s)

pub filter_packets-other :
    (k : SockKey) (linked : Bool) (packets : List (ℕ × ℕ × Skb)) (s : RpcState)
    → All (λ p. OfOther k p.2) packets
    → lookup (filter_packets linked packets s).grpc_request_map k ≡ lookup s.grpc_request_map k
unfolding filter_packets
filter_packets-other k linked [] s others = refl
filter_packets-other k linked ((now1, now2, skb) ∷ packets) s (other, others) =
    filter_packets-other k linked packets (rpc_filter_package linked now1 now2 skb s) others
    ∙ rpc_filter_package-other k linked now1 now2 skb s other
