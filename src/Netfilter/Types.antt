-- ===== src/Netfilter/Types.antt =====
-- The structures of ebpf/include/libiptables.h, the kernel's memory and the maps of the probes.
--
-- The kernel's memory is a parameter, the fields of `Memory`: the structures of the kernel by their
-- address, and `read p n`, the little-endian number in the n bytes from the address p, for the
-- headers of a packet.
use erda_agent.Base.{ℕ, List, replicate, nat_eq}
use erda_agent.Maps.{HashMap}

-- `union addr`, as its two halves; `v4addr` is the lower half of the first.
pub record Addr : Type 0 where
  pub pre : ℕ
  pub post : ℕ

abbrev pub v4addr : ℕ → Addr
v4addr a = record { pre = a; post = 0 }

pub record L2Info : Type 0 where
  pub dest_mac : List ℕ
  pub l3_proto : ℕ

pub record L3Info : Type 0 where
  pub saddr : Addr
  pub daddr : Addr
  pub tot_len : ℕ
  pub ip_version : ℕ
  pub l4_proto : ℕ

pub record L4Info : Type 0 where
  pub sport : ℕ
  pub dport : ℕ
  pub ack : ℕ
  pub tcpflags : ℕ

pub record NfTuple : Type 0 where
  pub src : Addr
  pub dst : Addr
  pub sport : ℕ
  pub dport : ℕ
  pub ori_src : Addr
  pub ori_dst : Addr
  pub ori_sport : ℕ
  pub ori_dport : ℕ

pub record IptDoTableArgs : Type 0 where
  pub skb_ptr : ℕ
  pub state_ptr : ℕ
  pub table_ptr : ℕ
  pub start_ns : ℕ

pub record PktInfo : Type 0 where
  pub ifname : List ℕ
  pub len : ℕ
  pub cpu : ℕ
  pub pid : ℕ
  pub netns : ℕ
  pub pkt_type : ℕ

pub record IptablesInfo : Type 0 where
  pub tablename : List ℕ
  pub verdict : ℕ
  pub delay : ℕ
  pub hook : ℕ
  pub pf : ℕ

-- `struct event_t`, without the ICMP part, which stays zero.
pub record Event : Type 0 where
  pub skb : ℕ
  pub start_ns : ℕ
  pub flags : ℕ
  pub pkt_info : PktInfo
  pub l2_info : L2Info
  pub l3_info : L3Info
  pub l4_info : L4Info
  pub ipt_info : IptablesInfo

-- `struct nf_conntrack_tuple`: addresses and ports as they are in the packet.
pub record CtTuple : Type 0 where
  pub src_ip : ℕ
  pub src_port : ℕ
  pub dst_ip : ℕ
  pub dst_port : ℕ

pub record Memory : Type 0 where
  pub original_tuple : ℕ → CtTuple
  pub reply_tuple : ℕ → CtTuple
  pub skb_head : ℕ → ℕ
  pub skb_mac_header : ℕ → ℕ
  pub skb_network_header : ℕ → ℕ
  pub skb_len : ℕ → ℕ
  pub skb_dev : ℕ → ℕ
  pub skb_pkt_type_byte : ℕ → ℕ
  pub dev_netns : ℕ → ℕ
  pub sk_netns : ℕ → ℕ
  pub dev_name : ℕ → List ℕ
  pub table_name : ℕ → List ℕ
  pub state_hook : ℕ → ℕ
  pub state_pf : ℕ → ℕ
  pub read : ℕ → ℕ → ℕ
  pub processor_id : ℕ

pub record NfState : Type 0 where
  pub conn_maps : HashMap ℕ ℕ
  pub ipt_maps : HashMap ℕ IptDoTableArgs
  pub nf_conn_maps : HashMap ℕ NfTuple
  pub event_buf : HashMap ℕ Event

abbrev pub zero_event : Event
zero_event = record {
  skb = 0;
  start_ns = 0;
  flags = 0;
  pkt_info = record { ifname = replicate 16 0; len = 0; cpu = 0; pid = 0; netns = 0; pkt_type = 0 };
  l2_info = record { dest_mac = replicate 6 0; l3_proto = 0 };
  l3_info = record {
    saddr = v4addr 0;
    daddr = v4addr 0;
    tot_len = 0;
    ip_version = 0;
    l4_proto = 0;
  };
  l4_info = record { sport = 0; dport = 0; ack = 0; tcpflags = 0 };
  ipt_info = record { tablename = replicate 32 0; verdict = 0; delay = 0; hook = 0; pf = 0 };
}
