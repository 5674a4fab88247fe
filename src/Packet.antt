-- ===== src/Packet.antt =====
-- What the filters read a packet through, and the tuple that identifies its connection:
-- ebpf/include/protocol.h (types and `read_conn_tuple_skb`).
--
-- The kernel's helpers are parameters, the fields of `Skb`. `load_bytes off to` is
-- `bpf_skb_load_bytes(skb, off, to, length to)`: whether it returned 0, and what it left in the
-- buffer. `load_byte`, `load_half` and `load_word` are the instructions of the same names, `none`
-- where the kernel ends the program with the result 0.
pub mod Tuple
pub mod Bytes
pub mod Buffer
use erda_agent.Base.{
  ℕ, ◌+◌, ◌*◌, ◌/◌, ◌%◌, ◌^◌, ◌≡◌, ◌↔◌, List, [], ◌∷◌, Option, none, some, Bool, true, false, ◌&&◌,
  bit_or, ltb, leb, ◌==◌, if◌then◌else◌, u8, u16, u32, sub32, bswap64, length, slice, replicate, Eq,
  get_or, arith, ==_iff, be,
}

pub record Skb : Type 0 where
  pub len : ℕ
  pub load_bytes : ℕ → List ℕ → Bool × List ℕ
  pub load_byte : ℕ → Option ℕ
  pub load_half : ℕ → Option ℕ
  pub load_word : ℕ → Option ℕ

pub record ConnTuple : Type 0 where
  pub saddr_h : ℕ
  pub saddr_l : ℕ
  pub daddr_h : ℕ
  pub daddr_l : ℕ
  pub sport : ℕ
  pub dport : ℕ
  pub netns : ℕ
  pub pid : ℕ
  pub l3_proto : ℕ
  pub metadata : ℕ

pub record SockKey : Type 0 where
  pub src_ip : ℕ
  pub dst_ip : ℕ
  pub src_port : ℕ
  pub dst_port : ℕ

pub record SkbInfo : Type 0 where
  pub data_off : ℕ
  pub data_end : ℕ
  pub tcp_seq : ℕ
  pub tcp_flags : ℕ

abbrev pub zero_tuple : ConnTuple
zero_tuple = record {
  saddr_h = 0;
  saddr_l = 0;
  daddr_h = 0;
  daddr_l = 0;
  sport = 0;
  dport = 0;
  netns = 0;
  pid = 0;
  l3_proto = 0;
  metadata = 0;
}

-- `ETH_P_IP`, `ETH_P_IPV6`, `IPPROTO_UDP`, `IPPROTO_TCP` and the sizes of the kernel's headers.
abbrev pub eth_p_ip : ℕ
eth_p_ip = 0x0800

abbrev pub eth_p_ipv6 : ℕ
eth_p_ipv6 = 0x86dd

abbrev pub ipproto_tcp : ℕ
ipproto_tcp = 6

abbrev pub ipproto_udp : ℕ
ipproto_udp = 17

abbrev pub eth_hlen : ℕ
eth_hlen = 14

-- `metadata_mask_t`
abbrev pub conn_type_tcp : ℕ
conn_type_tcp = 1

abbrev pub conn_v6 : ℕ
conn_v6 = 2

-- The kernel compares the bytes of keys; the programs zero them first, so the padding is equal.
unfoldable pub tuple_beq : ConnTuple → ConnTuple → Bool
tuple_beq a b =
    a.saddr_h == b.saddr_h
    && a.saddr_l == b.saddr_l
    && a.daddr_h == b.daddr_h
    && a.daddr_l == b.daddr_l
    && a.sport == b.sport
    && a.dport == b.dport
    && a.netns == b.netns
    && a.pid == b.pid
    && a.l3_proto == b.l3_proto
    && a.metadata == b.metadata

pub tuple_beq_iff : (a b : ConnTuple) → (tuple_beq a b ≡ true) ↔ (a ≡ b)
unfolding tuple_beq
tuple_beq_iff a b = ground arith

unfoldable pub sock_key_beq : SockKey → SockKey → Bool
sock_key_beq a b =
    a.src_ip == b.src_ip
    && a.dst_ip == b.dst_ip
    && a.src_port == b.src_port
    && a.dst_port == b.dst_port

pub sock_key_beq_iff : (a b : SockKey) → (sock_key_beq a b ≡ true) ↔ (a ≡ b)
unfolding sock_key_beq
sock_key_beq_iff a b = ground arith

-- Both offsets begin behind the Ethernet header.
abbrev start_of_packet : SkbInfo
start_of_packet = record { data_off = eth_hlen; data_end = eth_hlen; tcp_seq = 0; tcp_flags = 0 }

instance abbrev pub tuple_eq : Eq ConnTuple
tuple_eq = record { beq = tuple_beq; beq_iff = tuple_beq_iff }

instance abbrev pub sock_key_eq : Eq SockKey
sock_key_eq = record { beq = sock_key_beq; beq_iff = sock_key_beq_iff }

infixl 5 ◌>>=◌
abbrev ◌>>=◌ {ℓ κ} : {A : Type ℓ} {B : Type κ} → Option A → (A → Option B) → Option B
none >>= f = none
some a >>= f = f a

pub read_ipv4_skb : Skb → ℕ → Option ℕ
read_ipv4_skb skb off = do w ← skb.load_word off; some (bswap64 w / 2 ^ 32)

-- One half of an IPv6 address; `old` is what the tuple held.
read_half_skb : Skb → ℕ → ℕ → Option ℕ
read_half_skb skb off old = do
  hi ← skb.load_word off
  lo ← skb.load_word (off + 4)
  some (bswap64 (bit_or (bit_or old (hi * 2 ^ 32)) lo))

-- The addresses, the next header's protocol and the offsets after the IPv4 header.
read_ipv4_header : Skb → SkbInfo → ConnTuple → Option (ℕ × SkbInfo × ConnTuple)
unfolding read_ipv4_skb
read_ipv4_header skb info tup = do
  first ← skb.load_byte info.data_off
  let ipv4_hdr_len = u8 (first % 16 * 4)
  tot_len ← skb.load_half (info.data_off + 2)
  l4_proto ← if ltb ipv4_hdr_len 20 then none else skb.load_byte (info.data_off + 9)
  saddr ← read_ipv4_skb skb (info.data_off + 12)
  daddr ← read_ipv4_skb skb (info.data_off + 16)
  some (
    l4_proto,
    record info {
      data_off = u32 (info.data_off + ipv4_hdr_len);
      data_end = u32 (info.data_end + tot_len);
    },
    record tup { saddr_l = saddr; daddr_l = daddr; l3_proto = eth_p_ip },
  )

read_ipv6_header : Skb → SkbInfo → ConnTuple → Option (ℕ × SkbInfo × ConnTuple)
unfolding read_half_skb
read_ipv6_header skb info tup = do
  payload_len ← skb.load_half (info.data_off + 4)
  l4_proto ← skb.load_byte (info.data_off + 6)
  saddr_h ← read_half_skb skb (info.data_off + 8) tup.saddr_h
  saddr_l ← read_half_skb skb (info.data_off + 16) tup.saddr_l
  daddr_h ← read_half_skb skb (info.data_off + 24) tup.daddr_h
  daddr_l ← read_half_skb skb (info.data_off + 32) tup.daddr_l
  some (
    l4_proto,
    record info {
      data_off = u32 (info.data_off + 40);
      data_end = u32 (info.data_end + 40 + payload_len);
    },
    record tup {
      saddr_h = saddr_h;
      saddr_l = saddr_l;
      daddr_h = daddr_h;
      daddr_l = daddr_l;
      l3_proto = eth_p_ipv6;
      metadata = bit_or tup.metadata conn_v6;
    },
  )

read_udp_header : Skb → SkbInfo → ConnTuple → Option (SkbInfo × ConnTuple)
read_udp_header skb info tup = do
  sport ← skb.load_half info.data_off
  dport ← skb.load_half (info.data_off + 2)
  some (
    record info { data_off = u32 (info.data_off + 8) },
    record tup { sport = sport; dport = dport },
  )

read_tcp_header : Skb → SkbInfo → ConnTuple → Option (SkbInfo × ConnTuple)
read_tcp_header skb info tup = do
  sport ← skb.load_half info.data_off
  dport ← skb.load_half (info.data_off + 2)
  seq ← skb.load_word (info.data_off + 4)
  flags ← skb.load_byte (info.data_off + 13)
  doff ← skb.load_byte (info.data_off + 12)
  some (
    record info {
      data_off = u32 (info.data_off + doff / 16 % 16 * 4);
      tcp_seq = seq;
      tcp_flags = flags;
    },
    record tup { sport = sport; dport = dport; metadata = bit_or tup.metadata conn_type_tcp },
  )

read_l3_header : Skb → ℕ → SkbInfo → ConnTuple → Option (ℕ × SkbInfo × ConnTuple)
unfolding read_ipv4_header read_ipv6_header
read_l3_header skb l3_proto info tup =
    if l3_proto == eth_p_ip
    then read_ipv4_header skb info tup
    else if l3_proto == eth_p_ipv6
    then read_ipv6_header skb info tup
    else none

read_l4_header : Skb → ℕ → SkbInfo → ConnTuple → Option (SkbInfo × ConnTuple)
unfolding read_udp_header read_tcp_header
read_l4_header skb l4_proto info tup =
    if l4_proto == ipproto_udp
    then read_udp_header skb info tup
    else if l4_proto == ipproto_tcp
    then read_tcp_header skb info tup
    else none

-- `none` where the function returns 0 or the kernel ends the program: every caller returns 0 then.
-- The last test is the source's: a difference of two `__u32` is never below 0.
unfoldable pub read_conn_tuple_skb : Skb → ConnTuple → Option (SkbInfo × ConnTuple)
unfolding read_l3_header read_l4_header
read_conn_tuple_skb skb tup = do
  l3_proto ← skb.load_half 12
  (l4_proto, info, tup3) ← read_l3_header skb l3_proto start_of_packet tup
  (info', tup4) ← read_l4_header skb l4_proto info tup3
  if ltb (sub32 info'.data_end info'.data_off) 0 then none else some (info', tup4)
