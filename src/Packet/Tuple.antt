-- ===== src/Packet/Tuple.antt =====
-- ebpf/include/port_range.h: the two directions of a connection and their common form. The ends of
-- the ephemeral range are load-time constants (`LOAD_CONSTANT`).
pub mod Laws
use erda_agent.Base.{
  ℕ, Bool, true, false, not, ◌&&◌, ◌||◌, leb, ltb, ◌==◌, if◌then◌else◌, Eq, ==_iff, arith,
}
use erda_agent.Packet.{ConnTuple}

unfoldable pub flip_tuple : ConnTuple → ConnTuple
flip_tuple t = record t {
  sport = t.dport;
  dport = t.sport;
  saddr_l = t.daddr_l;
  daddr_l = t.saddr_l;
  saddr_h = t.daddr_h;
  daddr_h = t.saddr_h;
}

pub record PortRange : Type 0 where
  pub ephemeral_range_begin : ℕ
  pub ephemeral_range_end : ℕ

unfoldable pub is_ephemeral_port : PortRange → ℕ → Bool
is_ephemeral_port r port = leb r.ephemeral_range_begin port && leb port r.ephemeral_range_end

-- The tuple afterwards, and the result.
unfoldable pub normalize_tuple : PortRange → ConnTuple → ConnTuple × Bool
unfolding flip_tuple is_ephemeral_port
normalize_tuple r t =
    if is_ephemeral_port r t.sport && not (is_ephemeral_port r t.dport)
    then (t, false)
    else if (not (is_ephemeral_port r t.sport) && is_ephemeral_port r t.dport)
        || ltb t.sport t.dport
    then (flip_tuple t, true)
    else (t, false)
