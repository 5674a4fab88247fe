-- ===== src/Rpc/Dubbo/Flags.antt =====
-- What the flags of a Dubbo packet are taken for.
use erda_agent.Base.{
  ℕ, ◌+◌, ◌/◌, ◌^◌, ◌<◌, ◌≤◌, ◌≡◌, ◌↔◌, refl, List, true, u32, length, slice, splice, replicate,
  arith,
}
use erda_agent.Packet.{Skb}
use erda_agent.Packet.Bytes.{Reads}
use erda_agent.Rpc.Types.{RpcPackage, p_request, byte_at}
use erda_agent.Rpc.Dubbo.{
  is_dubbo_event, not_dubbo_event, dubbo_request, dubbo_response, judge_dubbo_protocol,
}

load_lem :
    (skb : Skb) (bytes : List ℕ) (off n : ℕ)
    → Reads skb bytes
    → length (replicate {A = ℕ} n 0) ≡ n
    → off + n ≤ length bytes
    → skb.load_bytes off (replicate n 0) ≡ (true, slice off n bytes)
load_lem skb bytes off n reads e h = rw (reads.in_range off (replicate n 0) (omega arith), e) refl

-- On a packet that holds the fixed header and 80 bytes of data: it is taken for an event exactly if
-- the three upper bits of its flags are 001, so that a request (whose uppermost bit is 1) never is;
-- and the path of a request is the first 80 bytes of its data.
pub judge_dubbo_protocol-flags :
    (skb : Skb) (bytes : List ℕ) (off : ℕ) (pkg : RpcPackage)
    → Reads skb bytes
    → off + 96 ≤ length bytes
    → length bytes < 2 ^ 32
    → let flags = byte_at (slice (off + 2) 1 bytes) 0 in
      let result = judge_dubbo_protocol skb off pkg in
      ((result.0 ≡ is_dubbo_event) ↔ (flags / 2 ^ 5 ≡ 1))
      × (flags / 2 ^ 7 ≡ 1
          → result ≡ (
            not_dubbo_event,
            record pkg { phase = p_request; path = splice 0 (slice (off + 16) 80 bytes) pkg.path },
          ))
unfolding judge_dubbo_protocol dubbo_request dubbo_response
judge_dubbo_protocol-flags skb bytes off pkg reads long small =
    let w2 : u32 (off + 2) ≡ off + 2 = omega arith in
    let w3 : u32 (off + 3) ≡ off + 3 = omega arith in
    let w16 : u32 (off + 16) ≡ off + 16 = omega arith in
    let a = load_lem skb bytes (off + 2) 1 reads refl (omega arith) in
    let b = load_lem skb bytes (off + 3) 1 reads refl (omega arith) in
    let c = load_lem skb bytes (off + 16) 80 reads refl (omega arith) in
    ground (arith, a, b, c, w2, w3, w16)
