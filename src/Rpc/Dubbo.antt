-- ===== src/Rpc/Dubbo.antt =====
-- The test for Dubbo: ebpf/include/protocol.h, `is_dubbo_magic` and `judge_dubbo_protocol`.
pub mod Flags
use erda_agent.Base.{
  ℕ, ◌+◌, ◌/◌, List, [], ◌∷◌, ◌++◌, Bool, true, false, not, ◌&&◌, ◌||◌, ltb, leb, ◌==◌,
  if◌then◌else◌, u32, replicate, splice, get_or, starts_with, be,
}
use erda_agent.Packet.{Skb}
use erda_agent.Rpc.Types.{RpcPackage, p_request, p_response, byte_at}

-- `dubbo_event_t`, which holds more than its two names: the three upper bits of the flags.
abbrev pub is_dubbo_event : ℕ
is_dubbo_event = 1

abbrev pub not_dubbo_event : ℕ
not_dubbo_event = 0

unfoldable pub is_dubbo_magic : Skb → ℕ → Bool
is_dubbo_magic skb data_off =
    let loaded = skb.load_bytes data_off (replicate 2 0) in
    loaded.0 && starts_with (0xda ∷ 0xbb ∷ []) loaded.1

-- The end of `judge_dubbo_protocol` for a request; `off` is where its data begin.
unfoldable pub dubbo_request : Skb → ℕ → RpcPackage → ℕ × RpcPackage
dubbo_request skb off pkg =
    let loaded = skb.load_bytes off (replicate 80 0) in
    if loaded.0
    then (not_dubbo_event, record pkg { path = splice 0 (loaded.1) pkg.path })
    else (is_dubbo_event, pkg)

-- The end for a response; `off` is where its status stands.
unfoldable pub dubbo_response : Skb → ℕ → RpcPackage → ℕ × RpcPackage
dubbo_response skb off pkg =
    let loaded = skb.load_bytes off (replicate 1 0) in
    if loaded.0
    then (not_dubbo_event, record pkg { dubbo_status = byte_at (loaded.1) 0 })
    else (is_dubbo_event, pkg)

unfoldable pub judge_dubbo_protocol : Skb → ℕ → RpcPackage → ℕ × RpcPackage
unfolding dubbo_request dubbo_response
judge_dubbo_protocol skb data_off pkg =
    let loaded = skb.load_bytes (u32 (data_off + 2)) (replicate 1 0) in
    let req_res = byte_at (loaded.1) 0 in
    let phase = if req_res / 128 == 1 then p_request else p_response in
    let pkg' = record pkg { phase = phase } in
    if not (loaded.0)
    then (is_dubbo_event, pkg)
    else if req_res / 32 == is_dubbo_event
    then (is_dubbo_event, pkg')
    else if req_res / 128 == 1
    then dubbo_request skb (u32 (data_off + 16)) pkg'
    else dubbo_response skb (u32 (data_off + 3)) pkg'
