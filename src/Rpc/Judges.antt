-- ===== src/Rpc/Judges.antt =====
-- The tests for protocols leave the requests that wait and the traces alone.
use erda_agent.Base.{nat_eq, ◌≡◌, refl, inl, inr, ◌==◌, Option-cases, Bool-cases}
use erda_agent.Maps.{lookup}
use erda_agent.Packet.{Skb, SkbInfo, ConnTuple, sock_key_eq}
use erda_agent.Sock.{connection_eq}
use erda_agent.Rpc.Mysql.{is_mysql}
use erda_agent.Rpc.Redis.{is_redis}
use erda_agent.Rpc.Dubbo.{is_dubbo_magic, is_dubbo_event, judge_dubbo_protocol}
use erda_agent.Rpc.Grpc.{judge_rpc}
use erda_agent.Rpc.Amqp.{is_amqp}
use erda_agent.Rpc.Types.{
  RpcStatus, payload_undetermined, payload_grpc, payload_not_grpc, payload_dubbo, payload_mysql,
  payload_redis, payload_kafka, payload_amqp, RpcPackage, zero_package, ClassificationBuffer,
  init_buffer, memory,
}
use erda_agent.Rpc.Program.{
  grpc_connection_of, RpcState, Judged, dropped, to_amqp, filed, judge_grpc, judge_buffer, judge,
}

-- Two states with the same requests, traces, and owners of connections.
pub record SamePackages (s s' : RpcState) : Type 0 where
  pub same_filter : s'.filter_map ≡ s.filter_map
  pub same_requests : s'.grpc_request_map ≡ s.grpc_request_map
  pub same_traces : s'.grpc_trace_map ≡ s.grpc_trace_map
  pub same_owners : s'.sock.filtered_connections ≡ s.sock.filtered_connections

-- The state that comes with a judgement.
abbrev pub judged_state : Judged → RpcState
judged_state (dropped s) = s
judged_state (to_amqp s) = s
judged_state (filed pkg s) = s

SamePackages-refl : (s : RpcState) → SamePackages s s
SamePackages-refl s = record {
  same_filter = refl;
  same_requests = refl;
  same_traces = refl;
  same_owners = refl;
}

judge_unmarked :
    (t : ConnTuple) (pkg : RpcPackage) (s : RpcState)
    → SamePackages s (judged_state (judge_grpc t (payload_not_grpc, pkg) s))
unfolding judge_grpc
judge_unmarked t pkg s =
    elim (Option-cases (lookup s.sock.grpc_connections (grpc_connection_of t))) [
      | inl e ↦ rw (judge_grpc, e) (SamePackages-refl s)
      | inr (_, e) ↦ rw (judge_grpc, e) (SamePackages-refl s)
    ]

-- A packet that is not gRPC by itself is filed if its connection is marked.
judge_grpc-Same :
    (t : ConnTuple) (status : RpcStatus) (pkg : RpcPackage) (s : RpcState)
    → SamePackages s (judged_state (judge_grpc t (status, pkg) s))
unfolding judge_grpc
judge_grpc-Same t payload_grpc pkg s = record {
  same_filter = refl;
  same_requests = refl;
  same_traces = refl;
  same_owners = refl;
}
judge_grpc-Same t payload_undetermined pkg s = judge_unmarked t pkg s
judge_grpc-Same t payload_not_grpc pkg s = judge_unmarked t pkg s
judge_grpc-Same t payload_dubbo pkg s = judge_unmarked t pkg s
judge_grpc-Same t payload_mysql pkg s = judge_unmarked t pkg s
judge_grpc-Same t payload_redis pkg s = judge_unmarked t pkg s
judge_grpc-Same t payload_kafka pkg s = judge_unmarked t pkg s
judge_grpc-Same t payload_amqp pkg s = judge_unmarked t pkg s

judge_buffer-Same :
    (skb : Skb) (info : SkbInfo) (t : ConnTuple) (b : ClassificationBuffer) (s : RpcState)
    → SamePackages s (judged_state (judge_buffer skb info t b s))
unfolding judge_buffer
judge_buffer-Same skb info t b s =
    let mysql = is_mysql (memory b) b.size zero_package in
    let redis = is_redis (memory b) b.size (mysql.1) in
    let amqp = is_amqp t (memory b) b.size s.amqp in
    let grpc = judge_rpc skb info.data_off (redis.1) in
    elim (Bool-cases (mysql.0)) [
      | inl e ↦ rw (judge_buffer, e) (SamePackages-refl s)
      | inr e ↦ elim (Bool-cases (redis.0)) [
        | inl e2 ↦ rw (judge_buffer, e, e2) (SamePackages-refl s)
        | inr e2 ↦ elim (Bool-cases (amqp.0)) [
          | inl e3 ↦
              rw (judge_buffer, e, e2, e3)
                (record {
                  same_filter = refl;
                  same_requests = refl;
                  same_traces = refl;
                  same_owners = refl;
                })
          | inr e3 ↦ rw (judge_buffer, e, e2, e3) (judge_grpc-Same t (grpc.0) (grpc.1) s)
        ]
      ]
    ]

pub judge-Same :
    (skb : Skb) (info : SkbInfo) (t : ConnTuple) (s : RpcState)
    → SamePackages s (judged_state (judge skb info t s))
unfolding judge
judge-Same skb info t s =
    let dubbo = judge_dubbo_protocol skb info.data_off zero_package in
    elim (Bool-cases (is_dubbo_magic skb info.data_off)) [
      | inr e ↦ rw (judge, e) (judge_buffer-Same skb info t (init_buffer skb info) s)
      | inl e ↦ elim (Bool-cases (dubbo.0 == is_dubbo_event)) [
        | inl e2 ↦ rw (judge, e, e2) (SamePackages-refl s)
        | inr e2 ↦ rw (judge, e, e2) (SamePackages-refl s)
      ]
    ]
