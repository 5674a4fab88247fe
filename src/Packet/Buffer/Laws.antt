-- ===== src/Packet/Buffer/Laws.antt =====
-- The block-wise copy is a plain copy.
use Prim.Native.Nat.{min}
use Prim.Native.Nat.add
use mathlib.Core.List.{append_assoc}
use erda_agent.Base.{
  ℕ, zero, suc, ◌+◌, ◌-◌, ◌*◌, ◌/◌, ◌^◌, ◌≤◌, ◌<◌, ◌≡◌, refl, sym, ap, ◌∙◌, inl, inr, List, [], ◌∷◌,
  ◌++◌, leb, u32, length, take, drop, slice, length-take, length-drop, arith, Bool-cases,
}
use erda_agent.Packet.{Skb}
use erda_agent.Packet.Bytes.{Reads}
use erda_agent.Packet.Buffer.{
  blk_size, load_front, read_rest, read_blocks, read_end, read_into_buffer,
}

module _ {ℓ} {A : Type ℓ} where
  take-nil : (n : ℕ) → take {A = A} n [] ≡ []
  take-nil zero = refl
  take-nil (suc n) = refl

  drop-nil : (n : ℕ) → drop {A = A} n [] ≡ []
  drop-nil zero = refl
  drop-nil (suc n) = refl

  take-add : (m n : ℕ) (xs : List A) → take (m + n) xs ≡ take m xs ++ take n (drop m xs)
  take-add zero n xs = rw add.zero
  take-add (suc m) n [] = rw add.suc (sym (take-nil n))
  take-add (suc m) n (x ∷ xs) = rw (add.suc, take-add m n xs)

  drop-add : (m n : ℕ) (xs : List A) → drop (m + n) xs ≡ drop n (drop m xs)
  drop-add zero n xs = rw add.zero
  drop-add (suc m) n [] = rw add.suc (sym (drop-nil n))
  drop-add (suc m) n (x ∷ xs) = rw add.suc (drop-add m n xs)

  -- A block and what follows it.
  slice-add : (i m n : ℕ) (xs : List A) → slice i (m + n) xs ≡ slice i m xs ++ slice (i + m) n xs
  slice-add i m n xs = rw (drop-add i m xs) (take-add m n (drop i xs))

  length-take_of_le : (n : ℕ) (xs : List A) → n ≤ length xs → length (take n xs) ≡ n
  length-take_of_le n xs h = omega (arith, length-take n xs)

  pub join_blocks :
      (i m n : ℕ) (xs ys : List A)
      → slice i m xs ++ (slice (i + m) n xs ++ drop n (drop m ys))
        ≡ slice i (m + n) xs ++ drop (m + n) ys
  join_blocks i m n xs ys =
      rw (slice-add i m n xs, drop-add m n ys)
        (sym (append_assoc (slice i m xs) (slice (i + m) n xs) (drop n (drop m ys))))

module _ (skb : Skb) (bytes : List ℕ) (reads : Reads skb bytes) where
  pub load_front_lem :
      (off n : ℕ) (buffer : List ℕ)
      → n ≤ length buffer
      → off + n ≤ length bytes
      → load_front skb off n buffer ≡ slice off n bytes ++ drop n buffer
  unfolding load_front
  load_front_lem off n buffer h k =
      let e = length-take_of_le n buffer h in
      rw (reads.in_range off (take n buffer) (omega arith), e)

  read_rest_lem :
      (end off n left : ℕ) (buffer : List ℕ)
      → end ≡ off + n
      → n ≤ left
      → n < blk_size
      → left ≡ length buffer
      → end ≤ length bytes
      → read_rest skb end off left buffer ≡ slice off n bytes ++ drop n buffer
  unfolding read_rest
  read_rest_lem end off n left buffer e le lt size fits =
      ground (arith, load_front_lem off n buffer)

  -- A full block is 16 bytes of the packet.
  pub load_block_lem :
      (off : ℕ) (buffer : List ℕ)
      → blk_size ≤ length buffer
      → off + blk_size ≤ length bytes
      → (skb.load_bytes off (take blk_size buffer)).1 ≡ slice off blk_size bytes
  load_block_lem off buffer h k =
      let e = length-take_of_le blk_size buffer h in
      rw (reads.in_range off (take blk_size buffer) (omega arith), e)

  next_block :
      (r end off n left : ℕ) (buffer : List ℕ)
      → blk_size ≤ n
      → blk_size ≤ length buffer
      → off + n ≤ length bytes
      → length bytes + 16 < 2 ^ 32
      → read_blocks r skb end (off + blk_size) (left - blk_size) (drop blk_size buffer)
        ≡ slice (off + blk_size) (n - blk_size) bytes ++ drop (n - blk_size) (drop blk_size buffer)
      → (skb.load_bytes off (take blk_size buffer)).1
          ++ read_blocks r skb end (u32 (off + blk_size)) (left - blk_size) (drop blk_size buffer)
        ≡ slice off n bytes ++ drop n buffer
  next_block r end off n left buffer full room fits small ih =
      let wrap : u32 (off + blk_size) ≡ off + blk_size = omega arith in
      let split : blk_size + (n - blk_size) ≡ n = omega arith in
      rw (load_block_lem off buffer room (omega arith), wrap, ih)
        (join_blocks off blk_size (n - blk_size) bytes buffer
          ∙ ap (λ k. slice off k bytes ++ drop k buffer) split)

  read_blocks_lem :
      (r end off n left : ℕ) (buffer : List ℕ)
      → end ≡ off + n
      → n ≤ left
      → left ≡ length buffer
      → end ≤ length bytes
      → left < r * 16 + 16
      → length bytes + 16 < 2 ^ 32
      → read_blocks r skb end off left buffer ≡ slice off n bytes ++ drop n buffer
  unfolding read_blocks
  read_blocks_lem zero end off n left buffer e le size fits few small =
      read_rest_lem end off n left buffer e le (omega arith) size fits
  read_blocks_lem (suc r) end off n left buffer e le size fits few small =
      elim (Bool-cases (leb end (u32 (off + (blk_size - 1))))) [
        | inl last ↦
            rw (last, read_blocks)
              (read_rest_lem end off n left buffer e le (ground arith) size fits)
        | inr more ↦
            let full : blk_size ≤ n = ground arith in
            rw (more, read_blocks)
              (next_block r end off n left buffer full (omega arith) (omega arith) small (
                read_blocks_lem r end (off + blk_size) (n - blk_size) (left - blk_size)
                  (drop blk_size buffer) (omega arith) (omega arith)
                  (omega (arith, length-drop blk_size buffer)) fits (omega arith) small))
      ]

-- `READ_INTO_BUFFER` at an offset within the packet: the buffer then begins with the packet's bytes
-- from the offset on, as many as there are, at most `total_size`; behind them it is unchanged. The
-- buffer has `total_size` bytes, and the offsets stay below 2 ^ 32.
pub read_into_buffer-eq-slice :
    (skb : Skb) (bytes : List ℕ) (total_size off : ℕ) (buffer : List ℕ)
    → Reads skb bytes
    → length buffer ≡ total_size
    → off ≤ length bytes
    → length bytes + total_size + 16 < 2 ^ 32
    → let n = min total_size (length bytes - off) in
      read_into_buffer total_size skb off buffer ≡ slice off n bytes ++ drop n buffer
unfolding read_into_buffer
read_into_buffer-eq-slice skb bytes total_size off buffer reads size within small =
    read_blocks_lem skb bytes reads (total_size / blk_size) (read_end total_size skb off) off
      (min total_size (length bytes - off)) total_size buffer (ground (arith, reads.len_eq))
      (omega arith) (omega arith) (ground (arith, reads.len_eq)) (omega arith) (omega arith)
