-- ===== src/Rpc/Grpc.antt =====
-- The test for gRPC: ebpf/include/protocol.h, `skip_literal_header` to `is_encoded_grpc_content_type`,
-- `get_path`, `get_status` and `check_and_skip_magic` to `judge_rpc`. An offset that is passed by
-- reference is returned. The bytes of a header field are its bit fields, the first in the lowest
-- bits.
pub mod Frames
pub mod Headers
use erda_agent.Base.{
  ℕ, zero, suc, ◌+◌, ◌*◌, ◌/◌, ◌%◌, ◌^◌, List, [], ◌∷◌, ◌++◌, Option, none, some, Bool, true, false,
  not, ◌&&◌, ◌||◌, ltb, leb, ◌==◌, if◌then◌else◌, u8, u32, sub32, bswap32, replicate, slice, le,
  codes, starts_with,
}
use erda_agent.Packet.{Skb}
use erda_agent.Rpc.Types.{
  RpcPackage, RpcStatus, payload_undetermined, payload_grpc, payload_not_grpc, p_request,
  p_response, byte_at,
}

abbrev pub http2_path_header_idx : ℕ
http2_path_header_idx = 5

abbrev pub http2_status_header_idx : ℕ
http2_status_header_idx = 8

abbrev pub http2_content_type_idx : ℕ
http2_content_type_idx = 31

abbrev pub k_get : ℕ
k_get = 2

abbrev pub k_post : ℕ
k_post = 3

-- `bpf_skb_load_bytes` of one byte
unfoldable pub load_raw : Skb → ℕ → ℕ
load_raw skb off = byte_at ((skb.load_bytes off (replicate 1 0)).1) 0

-- The length of a string literal: its lower seven bits.
unfoldable pub literal_length : Skb → ℕ → ℕ
unfolding load_raw
literal_length skb off = load_raw skb off % 2 ^ 7

unfoldable pub skip_literal_header : Skb → ℕ → ℕ → ℕ → ℕ
unfolding literal_length
skip_literal_header skb off frame_end idx =
    let off1 = u32 (off + (1 + literal_length skb off)) in
    let off2 = u32 (off1 + (1 + literal_length skb off1)) in
    if ltb frame_end (off + 1)
    then off
    else if idx == 0 && leb (off1 + 1) frame_end
    then off2
    else off1

unfoldable pub is_indexed : ℕ → Bool
is_indexed raw = raw / 2 ^ 7 % 2 == 1

unfoldable pub is_literal : ℕ → Bool
is_literal raw = raw / 2 ^ 6 % 2 == 1

abbrev pub grpc_encoded_content_type : List ℕ
grpc_encoded_content_type =
    0x1d ∷ 0x75 ∷ 0xd0 ∷ 0x62 ∷ 0x0d ∷ 0x26 ∷ 0x3d ∷ 0x4c ∷ 0x4d ∷ 0x65 ∷ 0x64 ∷ []

unfoldable pub is_encoded_grpc_content_type : List ℕ → Bool
is_encoded_grpc_content_type buf = starts_with grpc_encoded_content_type buf

-- `off` is behind the index; the path is loaded from the index on.
unfoldable pub get_path : Skb → ℕ → ℕ → ℕ → RpcPackage → RpcPackage
unfolding literal_length
get_path skb off frame_end raw pkg =
    if not (raw % 2 ^ 6 == http2_path_header_idx) || ltb frame_end (off + 1)
    then pkg
    else record pkg {
      path_len = u8 (literal_length skb off + 1);
      path = (skb.load_bytes (sub32 off 1) pkg.path).1;
      phase = p_request;
    }

unfoldable pub get_status : Skb → ℕ → ℕ → ℕ → RpcPackage → RpcPackage
get_status skb off frame_end raw pkg =
    if not (raw % 2 ^ 6 == http2_status_header_idx) || ltb frame_end (off + 1)
    then pkg
    else record pkg { status = (skb.load_bytes (sub32 off 1) pkg.status).1; phase = p_response }

-- The new offset, and the result.
unfoldable pub is_content_type_grpc : Skb → ℕ → ℕ → ℕ → ℕ × RpcStatus
unfolding literal_length is_encoded_grpc_content_type
is_content_type_grpc skb off frame_end idx =
    let len = literal_length skb off in
    let off1 = u32 (off + 1) in
    if not (idx == http2_content_type_idx)
    then (off, payload_undetermined)
    else if ltb frame_end (off + 1)
    then (off, payload_not_grpc)
    else if ltb len 11
    then (off1, payload_not_grpc)
    else (
      u32 (off1 + len),
      if is_encoded_grpc_content_type ((skb.load_bytes off1 (replicate 11 0)).1)
          then payload_grpc
          else payload_not_grpc,
    )

-- What `scan_headers` does with one header: it stops with a result, or goes on at an offset.
pub data Scan : Type 0 where
  stops : RpcStatus → Scan
  goes_on : ℕ → Scan

-- Behind `is_content_type_grpc`.
unfoldable pub after_content_type : Skb → ℕ → ℕ → ℕ × RpcStatus → Scan
unfolding skip_literal_header
after_content_type skb frame_end idx (off, payload_undetermined) =
    goes_on (skip_literal_header skb off frame_end idx)
after_content_type skb frame_end idx (off, status) = stops status

-- `off` is behind the index.
unfoldable pub scan_header : Skb → ℕ → ℕ → ℕ → Scan
unfolding is_literal is_indexed is_content_type_grpc after_content_type
scan_header skb off frame_end raw =
    let idx = raw % 2 ^ 6 in
    if is_literal raw
    then (if idx == k_get || idx == k_post
        then stops payload_not_grpc
        else after_content_type skb frame_end idx (is_content_type_grpc skb off frame_end idx))
    else if is_indexed raw && raw % 2 ^ 7 == k_get
    then stops payload_not_grpc
    else goes_on off

-- What a header's index says of the package.
unfoldable pub note_header : Skb → ℕ → ℕ → ℕ → RpcPackage → RpcPackage
unfolding get_path get_status
note_header skb off frame_end raw pkg =
    get_status skb off frame_end raw (get_path skb off frame_end raw pkg)

-- The loop of `scan_headers`, on the rounds that are left.
unfoldable pub scan_rounds : ℕ → Skb → ℕ → ℕ → RpcPackage → RpcStatus × RpcPackage
unfolding load_raw note_header scan_header
scan_rounds zero skb off frame_end pkg = (payload_undetermined, pkg)
scan_rounds (suc n) skb off frame_end pkg = elim (leb frame_end off) [
  | true ↦ (payload_undetermined, pkg)
  | false ↦
      let raw = load_raw skb off in
      let off' = u32 (off + 1) in
      let pkg' = note_header skb off' frame_end raw pkg in
      elim (scan_header skb off' frame_end raw) [
        | stops status ↦ (status, pkg')
        | goes_on next ↦ scan_rounds n skb next frame_end pkg'
      ]
]

unfoldable pub headers_end : Skb → ℕ → ℕ → ℕ
headers_end skb off frame_length =
    let frame_end = u32 (off + frame_length) in
    let skb_end = u32 (skb.len + 1) in if ltb frame_end skb_end then frame_end else skb_end

unfoldable pub scan_headers : Skb → ℕ → ℕ → RpcPackage → RpcStatus × RpcPackage
unfolding headers_end scan_rounds
scan_headers skb off frame_length pkg =
    scan_rounds 10 skb off (headers_end skb off frame_length) pkg

abbrev pub http2_preface : List ℕ
http2_preface = codes "PRI * HTTP/2.0\r\n\r\nSM\r\n\r\n"

unfoldable pub is_http2_preface : List ℕ → ℕ → Bool
is_http2_preface buf buf_size = if ltb buf_size 24 then false else starts_with http2_preface buf

unfoldable pub check_and_skip_magic : Skb → ℕ → ℕ
unfolding is_http2_preface
check_and_skip_magic skb off =
    if leb skb.len (u32 (off + 24))
    then off
    else if is_http2_preface ((skb.load_bytes off (replicate 24 0)).1) 24
    then u32 (off + 24)
    else off

-- `struct http2_frame`
pub record Http2Frame : Type 0 where
  pub length : ℕ
  pub frame_type : ℕ
  pub flags : ℕ
  pub stream_id : ℕ

unfoldable pub is_empty_frame_header : List ℕ → Bool
is_empty_frame_header frame = starts_with (replicate 9 0) frame

-- `none` where the function returns false. The two fields are shifted to the top of a word, whose
-- bytes are swapped.
unfoldable pub read_http2_frame_header : List ℕ → ℕ → Option Http2Frame
unfolding is_empty_frame_header
read_http2_frame_header buf buf_size =
    if ltb buf_size 9 || is_empty_frame_header buf || ltb 9 (byte_at buf 3)
    then none
    else some (record {
      length = bswap32 (u32 (le (slice 0 3 buf) * 2 ^ 8)) % 2 ^ 24;
      frame_type = byte_at buf 3;
      flags = byte_at buf 4;
      stream_id = bswap32 (u32 (le (slice 5 4 buf) / 2 * 2)) % 2 ^ 31;
    })

-- `frame_info_t`
pub record FrameInfo : Type 0 where
  pub offset : ℕ
  pub length : ℕ

-- The loop over the frames of `judge_rpc`, on the rounds that are left. It keeps one frame of
-- headers, `GRPC_MAX_FRAMES_TO_PROCESS`; what it loads of a frame of data is not used.
unfoldable pub find_headers : ℕ → Skb → ℕ → Option FrameInfo
unfolding read_http2_frame_header
find_headers zero skb off = none
find_headers (suc n) skb off = elim (ltb skb.len (u32 (off + 9))) [
  | true ↦ none
  | false ↦ elim (read_http2_frame_header ((skb.load_bytes off (replicate 9 0)).1) 9) [
    | none ↦ none
    | some frame ↦
        let next = u32 (off + 9) in
        let rest = find_headers n skb (u32 (next + frame.length)) in
        if frame.frame_type == 1
        then some (record { offset = next; length = frame.length })
        else rest
  ]
]

unfoldable pub judge_rpc : Skb → ℕ → RpcPackage → RpcStatus × RpcPackage
unfolding check_and_skip_magic find_headers scan_headers
judge_rpc skb off pkg = elim (find_headers 10 skb (check_and_skip_magic skb off)) [
  | none ↦ (payload_undetermined, pkg)
  | some frame ↦ scan_headers skb frame.offset frame.length pkg
]
