-- ===== src/Packet/Buffer.antt =====
-- Reading numbers and blocks out of a packet: ebpf/include/big_endian.h and
-- ebpf/include/read_into_buffer.h (the same macro stands in ebpf/include/protocol.h).
pub mod Laws
use erda_agent.Base.{
  ℕ, zero, suc, ◌+◌, ◌-◌, ◌/◌, List, ◌++◌, Option, none, some, true, false, ltb, leb, ◌==◌,
  if◌then◌else◌, u32, sub32, take, drop, replicate, be,
}
use erda_agent.Packet.{Skb}

-- `read_big_endian_s8`, `_s16` and `_s32` are n = 1, 2 and 4; the result is the bit pattern.
unfoldable pub read_big_endian : ℕ → Skb → ℕ → Option ℕ
read_big_endian n skb offset =
    if ltb skb.len (offset + n) then none else some (be (skb.load_bytes offset (replicate n 0)).1)

abbrev pub blk_size : ℕ
blk_size = 16

-- `bpf_skb_load_bytes(skb, offset, buffer, n)` into the first n bytes of what is left of the buffer.
unfoldable pub load_front : Skb → ℕ → ℕ → List ℕ → List ℕ
load_front skb offset n buffer = (skb.load_bytes offset (take n buffer)).1 ++ drop n buffer

abbrev last_size : ℕ → ℕ
last_size left_payload = if ltb left_payload (blk_size - 1) then left_payload else blk_size - 1

-- What follows the loop. `left` is `total_size - i * blk_size`.
read_rest : Skb → ℕ → ℕ → ℕ → List ℕ → List ℕ
unfolding load_front
read_rest skb end offset left buffer =
    if leb left 0
    then buffer
    else if leb end offset
    then buffer
    else if leb (last_size (end - offset)) left
    then load_front skb offset (last_size (end - offset)) buffer
    else buffer

-- The loop, on the rounds that are left; `buffer` is what follows the pointer.
read_blocks : ℕ → Skb → ℕ → ℕ → ℕ → List ℕ → List ℕ
unfolding read_rest
read_blocks zero skb end offset left buffer = read_rest skb end offset left buffer
read_blocks (suc n) skb end offset left buffer = elim (leb end (u32 (offset + (blk_size - 1)))) [
  | true ↦ read_rest skb end offset left buffer
  | false ↦
      (skb.load_bytes offset (take blk_size buffer)).1
      ++ read_blocks n skb end (u32 (offset + blk_size)) (left - blk_size) (drop blk_size buffer)
]

abbrev read_end : ℕ → Skb → ℕ → ℕ
read_end total_size skb offset =
    if ltb total_size (sub32 skb.len offset) then u32 (offset + total_size) else skb.len

-- `READ_INTO_BUFFER(name, total_size, BLK_SIZE)`
unfoldable pub read_into_buffer : ℕ → Skb → ℕ → List ℕ → List ℕ
unfolding read_blocks
read_into_buffer total_size skb offset buffer =
    read_blocks (total_size / blk_size) skb (read_end total_size skb offset) offset total_size
      buffer
