-- ===== src/Http.antt =====
-- The HTTP filter: ebpf/plugins/http/main.c, ebpf/plugins/http/protocols/http/http.h and types.h.
-- The clock is a parameter: a packet reads it once at most.
pub mod Payload
pub mod Methods
pub mod Classify
pub mod Status
pub mod Keeps
pub mod Pairing
pub mod Invariant
use erda_agent.Base.{
  ℕ, zero, suc, ◌+◌, ◌-◌, ◌*◌, ◌%◌, List, ◌++◌, Option, none, some, Bool, true, false, not, ◌&&◌,
  ◌||◌, ltb, leb, ◌==◌, if◌then◌else◌, u8, u16, u32, sub32, sub64, take, drop, replicate, get_or,
  codes, starts_with, Eq, nat_eq,
}
use erda_agent.Maps.{HashMap, lookup, update, delete, write}
use erda_agent.Packet.{
  Skb, SkbInfo, ConnTuple, SockKey, sock_key_eq, zero_tuple, eth_p_ip, eth_p_ipv6,
  read_conn_tuple_skb,
}
use erda_agent.Packet.Buffer.{load_front}

-- `http_phase_t` and `http_method_t`
pub data HttpPhase : Type 0 where
  http_phase_unknown http_request http_response : HttpPhase

pub data HttpMethod : Type 0 where
  http_method_unknown http_get http_post http_put http_delete : HttpMethod
  http_head http_options http_patch : HttpMethod

pub record HttpInfo : Type 0 where
  pub request_ts : ℕ
  pub duration : ℕ
  pub status_code : ℕ
  pub method : HttpMethod
  pub request_fragment : List ℕ

abbrev pub http_payload_size : ℕ
http_payload_size = 224

abbrev pub http_payload_block_size : ℕ
http_payload_block_size = 16

abbrev pub http_status_offset : ℕ
http_status_offset = 9

abbrev pub http_payload_prefix_size : ℕ
http_payload_prefix_size = 9

abbrev pub zero_http_info : HttpInfo
zero_http_info = record {
  request_ts = 0;
  duration = 0;
  status_code = 0;
  method = http_method_unknown;
  request_fragment = replicate http_payload_size 0;
}

abbrev pub zero_key : SockKey
zero_key = record { src_ip = 0; dst_ip = 0; src_port = 0; dst_port = 0 }

-- The three maps.
pub record HttpState : Type 0 where
  pub filter_map : HashMap ℕ ℕ
  pub http_processing_map : HashMap SockKey HttpInfo
  pub metrics_map : HashMap SockKey HttpInfo

-- A byte above 127 is a negative `char`, below `'0'`; both ends of the test return -1 as a `__u8`.
unfoldable pub char_to_u8 : ℕ → ℕ
char_to_u8 c = if ltb c b'0' || ltb b'9' c then 255 else u8 (c - b'0')

unfoldable pub read_status_code : List ℕ → ℕ
unfolding char_to_u8
read_status_code payload = u16 (
    char_to_u8 (get_or payload http_status_offset 0) * 100
    + char_to_u8 (get_or payload (http_status_offset + 1) 0) * 10
    + char_to_u8 (get_or payload (http_status_offset + 2) 0))

-- What the pointers of `load_http_payload_prefix` point to.
pub record Prefix : Type 0 where
  pub offset : ℕ
  pub method : HttpMethod
  pub phase : HttpPhase

-- The chain of tests on a request's first bytes.
unfoldable pub read_method : List ℕ → Prefix → Prefix
read_method p x =
    if starts_with (codes "GET /") p
    then record x { method = http_get; offset = u32 (x.offset + 4) }
    else if starts_with (codes "POST /") p
    then record x { method = http_post; offset = u32 (x.offset + 5) }
    else if starts_with (codes "PUT /") p
    then record x { method = http_put; offset = u32 (x.offset + 4) }
    else if starts_with (codes "DELETE /") p
    then record x { method = http_delete; offset = u32 (x.offset + 7) }
    else if starts_with (codes "HEAD /") p
    then record x { method = http_head; offset = u32 (x.offset + 5) }
    else if starts_with (codes "OPTIONS /") p || starts_with (codes "OPTIONS *") p
    then record x { method = http_options; offset = u32 (x.offset + 8) }
    else if starts_with (codes "PATCH /") p
    then record x { method = http_patch; offset = u32 (x.offset + 6) }
    else x

unfoldable pub load_http_payload_prefix : Skb → Prefix → Prefix
unfolding read_method
load_http_payload_prefix skb x =
    let p = (skb.load_bytes x.offset (replicate http_payload_prefix_size 0)).1 in
    if leb (sub32 skb.len x.offset) http_payload_prefix_size
    then x
    else if starts_with (codes "HTTP") p
    then record x { phase = http_response }
    else read_method p (record x { phase = http_request })

unfoldable pub payload_end : Skb → ℕ → ℕ
payload_end skb offset =
    if ltb http_payload_size (sub32 skb.len offset)
    then u32 (offset + http_payload_size)
    else skb.len

-- The cascade behind the loop, from n bytes down to one; `buf` is what follows the pointer.
unfoldable pub load_tail : ℕ → Skb → ℕ → ℕ → List ℕ → List ℕ
unfolding load_front
load_tail zero skb end offset buf = buf
load_tail (suc n) skb end offset buf =
    let shorter = load_tail n skb end offset buf in
    if ltb (u32 (offset + n)) end then load_front skb offset (suc n) buf else shorter

-- The loop, on the blocks that are left; none is left where `i * 16` has reached the buffer's size.
unfoldable pub load_blocks : ℕ → Skb → ℕ → ℕ → List ℕ → List ℕ
unfolding load_tail
load_blocks zero skb end offset buf = buf
load_blocks (suc n) skb end offset buf = elim (ltb end (u32 (offset + http_payload_block_size))) [
  | true ↦ load_tail 15 skb end offset buf
  | false ↦
      (skb.load_bytes offset (take http_payload_block_size buf)).1
      ++ load_blocks n skb end (u32 (offset + http_payload_block_size))
          (drop http_payload_block_size buf)
]

-- `load_http_payload`
unfoldable pub load_http_payload : Skb → ℕ → List ℕ → List ℕ
unfolding load_blocks payload_end
load_http_payload skb offset to =
    if offset == payload_end skb offset
    then to
    else load_blocks 14 skb (payload_end skb offset) offset to

-- `SELECT_IP`, on the halves of two addresses; `none` where it returns from the caller.
unfoldable pub select_ip : ℕ → ℕ → ℕ → ℕ → ℕ → SockKey → Option SockKey
select_ip proto s_h s_l d_h d_l k =
    if proto == eth_p_ip
    then some (record k { src_ip = u32 s_l; dst_ip = u32 d_l })
    else if proto == eth_p_ipv6
    then some (record k { src_ip = u32 s_h; dst_ip = u32 d_h })
    else none

-- `compose_conn_key`
unfoldable pub compose_conn_key : SockKey → ConnTuple → HttpPhase → SockKey
unfolding select_ip
compose_conn_key k t http_request =
    elim (select_ip t.l3_proto t.saddr_h t.saddr_l t.daddr_h t.daddr_l k) [
      | none ↦ k
      | some k' ↦ record k' { src_port = t.sport; dst_port = t.dport }
    ]
compose_conn_key k t http_response =
    elim (select_ip t.l3_proto t.daddr_h t.daddr_l t.saddr_h t.saddr_l k) [
      | none ↦ k
      | some k' ↦ record k' { src_port = t.dport; dst_port = t.sport }
    ]
compose_conn_key k t http_phase_unknown = k

-- A request whose method is known waits for its response.
unfoldable pub store_request : ℕ → SockKey → HttpMethod → List ℕ → HttpState → HttpState
unfolding update
store_request now key http_method_unknown fragment s = s
store_request now key m fragment s = record s {
  http_processing_map =
      update s.http_processing_map key
        (record zero_http_info { request_ts = now; method = m; request_fragment = fragment });
}

-- The case `HTTP_REQUEST` of `read_http_info`.
unfoldable pub note_request : ℕ → SockKey → HttpMethod → List ℕ → HttpState → HttpState
unfolding lookup store_request
note_request now key m fragment s = elim (lookup s.filter_map key.src_ip) [
  | none ↦ s
  | some _ ↦ store_request now key m fragment s
]

-- What the case `HTTP_RESPONSE` stores through its pointer.
unfoldable pub answered : ℕ → List ℕ → HttpInfo → HttpInfo
unfolding read_status_code
answered now payload i =
    let duration = sub64 now i.request_ts in
    record i {
      duration = if ltb 0 duration then duration else i.duration;
      status_code = read_status_code payload;
    }

-- The case itself; the value that the pointer reaches outlives the deletion of its entry.
unfoldable pub note_response : ℕ → SockKey → List ℕ → HttpState → HttpState
unfolding lookup update delete write answered
note_response now key payload s = elim (lookup s.http_processing_map key) [
  | none ↦ s
  | some i ↦ record s {
    http_processing_map = delete (write s.http_processing_map key (answered now payload i)) key;
    metrics_map = update s.metrics_map key (answered now payload i);
  }
]

unfoldable pub process_phase : ℕ → HttpPhase → SockKey → HttpMethod → List ℕ → HttpState → HttpState
unfolding note_request note_response
process_phase now http_phase_unknown key m fragment s = s
process_phase now http_request key m fragment s = note_request now key m fragment s
process_phase now http_response key m fragment s = note_response now key fragment s

unfoldable pub read_prefix : Skb → ℕ → Prefix
unfolding load_http_payload_prefix
read_prefix skb offset =
    load_http_payload_prefix skb
      (record { offset = offset; method = http_method_unknown; phase = http_phase_unknown })

unfoldable pub read_http_info : ℕ → Skb → ConnTuple → ℕ → HttpState → HttpState
unfolding read_prefix load_http_payload compose_conn_key process_phase
read_http_info now skb t offset s =
    let x = read_prefix skb offset in
    process_phase now x.phase (compose_conn_key zero_key t x.phase) x.method
      (load_http_payload skb x.offset (replicate http_payload_size 0)) s

unfoldable pub is_drop_packet : ConnTuple → Bool
is_drop_packet t = not (t.metadata % 2 == 1)

-- `socket__filter_package`
unfoldable pub socket_filter_package : ℕ → Skb → HttpState → HttpState
unfolding read_conn_tuple_skb is_drop_packet read_http_info
socket_filter_package now skb s = elim (read_conn_tuple_skb skb zero_tuple) [
  | none ↦ s
  | some (info, t) ↦ if is_drop_packet t then s else read_http_info now skb t info.data_off s
]
