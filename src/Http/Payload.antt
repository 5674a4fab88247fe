-- ===== src/Http/Payload.antt =====
-- The fragment that `load_http_payload` copies in blocks and a cascade of shorter loads.
use Prim.Native.Nat.{min}
use erda_agent.Base.{
  ℕ, zero, suc, ◌+◌, ◌-◌, ◌*◌, ◌^◌, ◌≤◌, ◌<◌, ◌==◌, ◌≡◌, refl, ap, ◌∙◌, inl, inr, List, ◌++◌, ltb,
  u32, length, drop, slice, length-drop, arith, Bool-cases,
}
use erda_agent.Packet.{Skb}
use erda_agent.Packet.Bytes.{Reads}
use erda_agent.Packet.Buffer.Laws.{load_front_lem, load_block_lem, join_blocks}
use erda_agent.Http.{
  http_payload_block_size, http_payload_size, payload_end, load_tail, load_blocks,
  load_http_payload,
}

module _ (skb : Skb) (bytes : List ℕ) (reads : Reads skb bytes) where
  load_tail_lem :
      (r end off n : ℕ) (buf : List ℕ)
      → end ≡ off + n
      → n ≤ r
      → r ≤ length buf
      → end ≤ length bytes
      → end + r < 2 ^ 32
      → load_tail r skb end off buf ≡ slice off n bytes ++ drop n buf
  unfolding load_tail
  load_tail_lem zero end off n buf e le room fits small = ground arith
  load_tail_lem (suc r) end off n buf e le room fits small =
      ground (arith, load_front_lem skb bytes reads off n buf, load_tail_lem r end off n buf)

  load_blocks_lem :
      (r end off n : ℕ) (buf : List ℕ)
      → end ≡ off + n
      → n ≤ r * 16
      → r * 16 ≤ length buf
      → end ≤ length bytes
      → end + 16 < 2 ^ 32
      → load_blocks r skb end off buf ≡ slice off n bytes ++ drop n buf
  unfolding load_blocks
  load_blocks_lem zero end off n buf e le room fits small = ground arith
  load_blocks_lem (suc r) end off n buf e le room fits small =
      elim (Bool-cases (ltb end (u32 (off + http_payload_block_size)))) [
        | inl last ↦
            rw (last, load_blocks)
              (load_tail_lem 15 end off n buf e (ground arith) (omega arith) fits (omega arith))
        | inr more ↦
            let wrap : u32 (off + 16) ≡ off + 16 = omega arith in
            let full : 16 ≤ n = ground arith in
            let split : 16 + (n - 16) ≡ n = omega arith in
            rw
              (
                more,
                load_blocks,
                load_block_lem skb bytes reads off buf (omega arith) (omega arith),
                wrap,
                load_blocks_lem r end (off + 16) (n - 16) (drop 16 buf) (omega arith) (omega arith)
                    (omega (arith, length-drop 16 buf)) fits small,
              )
              (join_blocks off 16 (n - 16) bytes buf
                ∙ ap (λ k. slice off k bytes ++ drop k buf) split)
      ]

  payload_end_lem :
      (offset : ℕ)
      → offset ≤ length bytes
      → length bytes + 240 < 2 ^ 32
      → payload_end skb offset ≡ offset + min http_payload_size (length bytes - offset)
  unfolding payload_end
  payload_end_lem offset within small = ground (arith, reads.len_eq)

  empty_lem :
      (offset n : ℕ) (to : List ℕ) → offset ≡ offset + n → to ≡ slice offset n bytes ++ drop n to
  empty_lem offset zero to e = refl
  empty_lem offset (suc n) to e = absurd (omega arith)

-- `load_http_payload` at an offset within the packet: the buffer of 224 bytes then begins with the
-- packet's bytes from the offset on, as many as there are, at most 224, and is unchanged behind
-- them. The packet has less than 2 ^ 32 - 240 bytes.
pub load_http_payload-eq-slice :
    (skb : Skb) (bytes : List ℕ) (offset : ℕ) (to : List ℕ)
    → Reads skb bytes
    → length to ≡ http_payload_size
    → offset ≤ length bytes
    → length bytes + 240 < 2 ^ 32
    → let n = min http_payload_size (length bytes - offset) in
      load_http_payload skb offset to ≡ slice offset n bytes ++ drop n to
unfolding load_http_payload
load_http_payload-eq-slice skb bytes offset to reads size within small =
    let n : ℕ = min http_payload_size (length bytes - offset) in
    let e = payload_end_lem skb bytes reads offset within small in
    elim (Bool-cases (offset == (offset + n))) [
      | inl none_left ↦ rw (e, none_left) (empty_lem skb bytes reads offset n to (ground arith))
      | inr some_left ↦
          rw (e, some_left)
            (load_blocks_lem skb bytes reads 14 (offset + n) offset n to refl (omega arith)
              (omega arith) (omega arith) (omega arith))
    ]
