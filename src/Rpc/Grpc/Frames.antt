-- ===== src/Rpc/Grpc/Frames.antt =====
-- The header of an HTTP/2 frame, written and read back.
use erda_agent.Base.{
  ℕ, ◌-◌, ◌*◌, ◌/◌, ◌%◌, ◌^◌, ◌<◌, ◌≤◌, ◌≡◌, List, [], ◌∷◌, some, u32, bswap32, le, arith,
}
use erda_agent.Rpc.Grpc.{Http2Frame, is_empty_frame_header, read_http2_frame_header}

-- The nine bytes of a header: three of the length, one of the type, one of flags, four of the
-- stream, each number with its most significant byte first.
pub frame_header : Http2Frame → List ℕ
frame_header f =
    f.length / 2 ^ 16
    ∷ f.length / 2 ^ 8 % 2 ^ 8
    ∷ f.length % 2 ^ 8
    ∷ f.frame_type
    ∷ f.flags
    ∷ f.stream_id / 2 ^ 24
    ∷ f.stream_id / 2 ^ 16 % 2 ^ 8
    ∷ f.stream_id / 2 ^ 8 % 2 ^ 8
    ∷ f.stream_id % 2 ^ 8
    ∷ []

length-read :
    (n : ℕ)
    → n < 2 ^ 24
    → bswap32 (u32 (le (n / 2 ^ 16 ∷ n / 2 ^ 8 % 2 ^ 8 ∷ n % 2 ^ 8 ∷ []) * 2 ^ 8)) % 2 ^ 24 ≡ n
length-read n h = omega arith

-- The reserved bit is taken from the wrong end of the first byte, so bit 24 of the stream is lost.
stream-read :
    (n : ℕ)
    → n < 2 ^ 31
    → bswap32
          (u32 (le (n / 2 ^ 24 ∷ n / 2 ^ 16 % 2 ^ 8 ∷ n / 2 ^ 8 % 2 ^ 8 ∷ n % 2 ^ 8 ∷ []) / 2 * 2))
        % 2 ^ 31
      ≡ n - n / 2 ^ 24 % 2 * 2 ^ 24
stream-read n h = omega arith

-- The header of a frame of a known type with at least one byte of payload is read back: its length,
-- type and flags are right, and its stream but for bit 24, which is read as 0.
pub read_http2_frame_header-frame_header :
    (f : Http2Frame)
    → 0 < f.length
    → f.length < 2 ^ 24
    → f.frame_type ≤ 9
    → f.stream_id < 2 ^ 31
    → read_http2_frame_header (frame_header f) 9
      ≡ some (record f { stream_id = f.stream_id - f.stream_id / 2 ^ 24 % 2 * 2 ^ 24 })
unfolding read_http2_frame_header is_empty_frame_header frame_header
read_http2_frame_header-frame_header f filled fits known stream =
    ground (arith, length-read f.length fits, stream-read f.stream_id stream)
