-- ===== src/Kafka/Reader.antt =====
-- ebpf/plugins/kafka/main.c: how the response parser reads numbers that may be split between two
-- packets. `offset` is passed by reference in the source: the functions return it with the value.
pub mod Varint
pub mod Remainder
pub mod Keeps
use erda_agent.Base.{
  ℕ, zero, suc, ◌+◌, ◌-◌, ◌*◌, ◌/◌, ◌%◌, ◌^◌, List, [], ◌∷◌, Bool, true, false, not, ◌&&◌, bit_or,
  ltb, leb, ◌==◌, if◌then◌else◌, u8, u32, u64, sub32, sub64, be, replicate, take, get_or, sext32_64,
}
use erda_agent.Packet.{Skb}
use erda_agent.Kafka.Types.{ResponseContext, ParseResult, ret_eop, ret_done, ret_err}

-- What a reader leaves: its result, the context, the offset, and the value read (0 if none was).
pub record Reading : Type 0 where
  pub result : ParseResult
  pub response : ResponseContext
  pub offset : ℕ
  pub value : ℕ

abbrev pub is_msb_set : ℕ → Bool
is_msb_set byte = leb 128 (byte % 256)

abbrev pub byte_at : Skb → ℕ → ℕ → ℕ
byte_at skb offset old = get_or (skb.load_bytes offset (old ∷ [])).1 0 0

-- The head bytes are not put back: the array starts from zeros. `want` is 2 or 4, and a `char` that
-- is not set stays 0.
abbrev reconstruct : ℕ → ℕ → List ℕ → List ℕ
reconstruct want remainder tail =
    if remainder == 1
    then (if ltb 2 want
        then 0 ∷ get_or tail 0 0 ∷ get_or tail 1 0 ∷ get_or tail 2 0 ∷ []
        else 0 ∷ get_or tail 0 0 ∷ 0 ∷ 0 ∷ [])
    else if remainder == 2
    then (if ltb 2 want then 0 ∷ 0 ∷ get_or tail 0 0 ∷ get_or tail 1 0 ∷ [] else replicate 4 0)
    else if remainder == 3
    then (if ltb 2 want then 0 ∷ 0 ∷ 0 ∷ get_or tail 0 0 ∷ [] else replicate 4 0)
    else replicate 4 0

-- `__read_with_remainder`; `want` is `config.want_bytes`, and `config.convert` reads the number
-- that the first `want` bytes stand for, most significant first. A load writes all of these bytes, or
-- clears them if it fails, so what was there before does not matter.
unfoldable pub read_with_remainder_config : ℕ → ResponseContext → Skb → ℕ → ℕ → Bool → Reading
read_with_remainder_config want response skb offset data_end first =
    let remainder = if first then response.remainder else 0 in
    if leb data_end offset
    then (record {
      result = ret_eop;
      response = record response { carry_over_offset = sub32 offset data_end };
      offset = offset;
      value = 0;
    })
    else if ltb (data_end - offset) want
    then (if remainder == 0
        then (record {
          result = ret_eop;
          response = record response { carry_over_offset = sub32 offset data_end };
          offset = offset;
          value = 0;
        })
        else (record { result = ret_err; response = response; offset = offset; value = 0 }))
    else if remainder == 0
    then (record {
      result = ret_done;
      response = response;
      offset = u32 (offset + want);
      value = be (skb.load_bytes offset (replicate want 0)).1;
    })
    else (record {
      result = ret_done;
      response = record response { remainder = 0 };
      offset = u32 (offset + sub32 want remainder);
      value =
          be (take want (reconstruct want remainder (skb.load_bytes offset (replicate want 0)).1));
    })

-- `read_with_remainder_s16`
unfoldable pub read_with_remainder_s16 : ResponseContext → Skb → ℕ → ℕ → Bool → Reading
unfolding read_with_remainder_config
read_with_remainder_s16 = read_with_remainder_config 2

-- `read_with_remainder`
unfoldable pub read_with_remainder : ResponseContext → Skb → ℕ → ℕ → Bool → Reading
unfolding read_with_remainder_config
read_with_remainder = read_with_remainder_config 4

-- `skip_tagged_fields`
unfoldable pub skip_tagged_fields : ResponseContext → Skb → ℕ → ℕ → Bool → Reading
skip_tagged_fields response skb offset data_end verify =
    if leb data_end offset
    then (record {
      result = ret_eop;
      response = record response { carry_over_offset = sub32 offset data_end };
      offset = offset;
      value = 0;
    })
    else if verify && not (byte_at skb offset 0 == 0)
    then (record { result = ret_err; response = response; offset = offset; value = 0 })
    else (record { result = ret_done; response = response; offset = u32 (offset + 1); value = 0 })

-- After the loop of `read_varint`. The test compares with `max_bytes - 1`, and a loop that was not
-- left early ends with `i` at `max_bytes`.
varint_end : ℕ → ℕ → ℕ → ResponseContext → ℕ → ℕ → Reading
varint_end max_bytes i byte response offset value =
    if i == max_bytes - 1 && is_msb_set byte
    then (record { result = ret_err; response = response; offset = offset; value = 0 })
    else (record { result = ret_done; response = response; offset = offset; value = sub64 value 1 })

pub varint_eop : ℕ → ResponseContext → ℕ → ℕ → ℕ → Reading
varint_eop i response offset data_end value = record {
  result = ret_eop;
  response = record response {
    varint_position = u8 i;
    varint_value = u32 value;
    carry_over_offset = sub32 offset data_end;
  };
  offset = offset;
  value = 0;
}

abbrev pub add_digit : ℕ → ℕ → ℕ → ℕ
add_digit value byte shift_amount = u64 (bit_or value (byte % 128 * 2 ^ shift_amount))

-- The rounds from `i` on: `rounds` is `max_bytes - i`.
pub varint_loop : ℕ → ℕ → ℕ → ℕ → ResponseContext → Skb → ℕ → ℕ → ℕ → ℕ → ℕ → Reading
unfolding varint_end varint_eop
varint_loop zero i max_bytes startpos response skb data_end offset value shift_amount byte =
    varint_end max_bytes i byte response offset value
varint_loop (suc rounds) i max_bytes startpos response skb data_end offset value shift_amount byte =
    elim (ltb i startpos) [
      | true ↦
          varint_loop rounds (i + 1) max_bytes startpos response skb data_end offset value
            shift_amount byte
      | false ↦ elim (leb data_end offset) [
        | true ↦ varint_eop i response offset data_end value
        | false ↦
            let byte' = byte_at skb offset byte in
            let value' = add_digit value byte' shift_amount in
            elim (is_msb_set byte') [
              | false ↦ varint_end max_bytes i byte' response (u32 (offset + 1)) value'
              | true ↦
                  varint_loop rounds (i + 1) max_bytes startpos response skb data_end
                    (u32 (offset + 1)) value' (shift_amount + 7) byte'
            ]
      ]
    ]

-- `read_varint`, with a context that is not `NULL`, as in every call.
unfoldable pub read_varint : ResponseContext → Skb → ℕ → ℕ → Bool → ℕ → Reading
unfolding varint_loop
read_varint response skb offset data_end first max_bytes =
    if first
    then varint_loop max_bytes 0 max_bytes response.varint_position
        (record response { varint_value = 0; varint_position = 0 }) skb data_end offset
        response.varint_value (response.varint_position * 7) 0
    else varint_loop max_bytes 0 max_bytes 0 response skb data_end offset 0 0 0

-- `read_varint_or_s16`. A u16 that is read is not negative as an s64.
unfoldable pub read_varint_or_s16 : Bool → ResponseContext → Skb → ℕ → ℕ → Bool → ℕ → Reading
unfolding read_varint read_with_remainder_s16
read_varint_or_s16 flexible response skb offset data_end first max_varint_bytes =
    if flexible
    then read_varint response skb offset data_end first max_varint_bytes
    else read_with_remainder_s16 response skb offset data_end first

abbrev extend_value : Reading → Reading
extend_value r = record r { value = sext32_64 r.value }

-- `read_varint_or_s32`: the value is the pattern of an s64.
unfoldable pub read_varint_or_s32 : Bool → ResponseContext → Skb → ℕ → ℕ → Bool → ℕ → Reading
unfolding read_varint read_with_remainder
read_varint_or_s32 flexible response skb offset data_end first max_varint_bytes =
    if flexible
    then read_varint response skb offset data_end first max_varint_bytes
    else extend_value (read_with_remainder response skb offset data_end first)
