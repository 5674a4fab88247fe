-- ===== src/Packet/Bytes.antt =====
-- A packet whose bytes are known, and what the helpers are documented to do with it.
use erda_agent.Base.{
  ℕ, ◌+◌, ◌≤◌, ◌≡◌, refl, List, Option, none, some, true, false, leb, if◌then◌else◌, length, slice,
  replicate, drop, length-take, length-drop, length-replicate, be, arith,
}
use erda_agent.Packet.{Skb}

-- `bpf_skb_load_bytes` within the packet copies the bytes and returns 0; out of it, it fails. It
-- never changes the size of the buffer.
pub record Reads (skb : Skb) (bytes : List ℕ) : Type 0 where
  pub len_eq : skb.len ≡ length bytes
  pub in_range :
      (off : ℕ) (to : List ℕ)
      → off + length to ≤ length bytes
      → skb.load_bytes off to ≡ (true, slice off (length to) bytes)

-- The value of the bytes from an offset on, if they are there.
load_be : List ℕ → ℕ → ℕ → Option ℕ
load_be bytes n off = if leb (off + n) (length bytes) then some (be (slice off n bytes)) else none

-- The kernel fills a buffer with zeros where a load fails.
unfoldable pub of_bytes : List ℕ → Skb
unfolding load_be
of_bytes bytes = record {
  len = length bytes;
  load_bytes = λ off to.
      if leb (off + length to) (length bytes)
      then (true, slice off (length to) bytes)
      else (false, replicate (length to) 0);
  load_byte = load_be bytes 1;
  load_half = load_be bytes 2;
  load_word = load_be bytes 4;
}

pub of_bytes-Reads : (bytes : List ℕ) → Reads (of_bytes bytes) bytes
unfolding of_bytes
of_bytes-Reads bytes = record { len_eq = refl; in_range = λ off to h. ground arith }

-- `bpf_skb_load_bytes` fills its buffer, whether it succeeds or not.
abbrev pub Fills : Skb → Type 0
Fills skb = (off : ℕ) (to : List ℕ) → length (skb.load_bytes off to).1 ≡ length to

pub of_bytes-Fills : (bytes : List ℕ) → Fills (of_bytes bytes)
unfolding of_bytes
of_bytes-Fills bytes off to = ground (
  arith,
  length-take (length to) (drop off bytes),
  length-drop off bytes,
  length-replicate {A = ℕ} (length to) 0,
)
