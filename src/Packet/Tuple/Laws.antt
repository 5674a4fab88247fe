-- ===== src/Packet/Tuple/Laws.antt =====
-- The two directions of a connection have one normal form.
use erda_agent.Base.{◌≡◌, ◌≢◌, refl, arith, if◌then◌else◌}
use erda_agent.Packet.{ConnTuple}
use erda_agent.Packet.Tuple.{PortRange, flip_tuple, is_ephemeral_port, normalize_tuple}

-- Swapping the ends twice gives the tuple back.
pub flip_tuple-flip_tuple : (t : ConnTuple) → flip_tuple (flip_tuple t) ≡ t
unfolding flip_tuple
flip_tuple-flip_tuple t = refl

-- For every ephemeral range, a packet and the packets of the other direction have the same
-- normal form, if the two ports differ; normalising once more changes nothing; and the normal form
-- is the flipped tuple if the result is true, and the tuple itself if it is false.
pub normalize_tuple-canonical :
    (r : PortRange) (t : ConnTuple)
    → t.sport ≢ t.dport
    → ((normalize_tuple r (flip_tuple t)).0 ≡ (normalize_tuple r t).0)
      × ((normalize_tuple r (normalize_tuple r t).0).0 ≡ (normalize_tuple r t).0)
      × ((normalize_tuple r t).0 ≡ (if (normalize_tuple r t).1 then flip_tuple t else t))
unfolding normalize_tuple is_ephemeral_port
normalize_tuple-canonical r t h = (ground arith, ground arith, ground arith)
