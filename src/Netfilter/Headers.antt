-- ===== src/Netfilter/Headers.antt =====
-- The functions of ebpf/include/libiptables.h: what they read of a packet and write into an event.
use erda_agent.Base.{
  ℕ, ◌+◌, ◌*◌, ◌/◌, ◌%◌, ◌^◌, [], ◌∷◌, ◌++◌, ◌==◌, if◌then◌else◌, u8, u16, bswap16, splice, get_or,
  map, codes, nat_eq,
}
use erda_agent.Netfilter.Types.{v4addr, L2Info, L3Info, L4Info, PktInfo, IptablesInfo, Memory}

unfoldable pub get_pkt_type : Memory → ℕ → ℕ
get_pkt_type mem skb = mem.skb_pkt_type_byte skb % 2 ^ 3

unfoldable pub get_netns : Memory → ℕ → ℕ
get_netns mem skb = if mem.dev_netns skb == 0 then mem.sk_netns skb else mem.dev_netns skb

unfoldable pub get_ip_version : Memory → ℕ → ℕ
get_ip_version mem hdr = mem.read hdr 1 / 2 ^ 4 % 2 ^ 4

unfoldable pub get_ipv4_header_len : Memory → ℕ → ℕ
get_ipv4_header_len mem hdr = u8 (mem.read hdr 1 % 2 ^ 4 * 4)

unfoldable pub get_l2_header : Memory → ℕ → ℕ
get_l2_header mem skb = mem.skb_head skb + mem.skb_mac_header skb

unfoldable pub get_l3_header : Memory → ℕ → ℕ
get_l3_header mem skb =
    if mem.skb_network_header skb == 0
    then mem.skb_head skb + u16 (mem.skb_mac_header skb + 14)
    else mem.skb_head skb + mem.skb_network_header skb

unfoldable pub get_l4_header : Memory → ℕ → ℕ
unfolding get_l3_header get_ip_version get_ipv4_header_len
get_l4_header mem skb =
    let l3_header = get_l3_header mem skb in
    if get_ip_version mem l3_header == 6
    then l3_header + 40
    else l3_header + get_ipv4_header_len mem l3_header

unfoldable pub set_ether_info : Memory → ℕ → L2Info → L2Info
unfolding get_l2_header
set_ether_info mem skb l2 =
    let p = get_l2_header mem skb in
    record l2 { dest_mac = map (λ i. mem.read (p + i) 1) (0 ∷ 1 ∷ 2 ∷ 3 ∷ 4 ∷ 5 ∷ []) }

unfoldable pub set_ipv4_info : Memory → ℕ → L3Info → L3Info
unfolding get_l3_header get_ip_version
set_ipv4_info mem skb l3 =
    let iph = get_l3_header mem skb in
    record l3 {
      saddr = v4addr (mem.read (iph + 12) 4);
      daddr = v4addr (mem.read (iph + 16) 4);
      tot_len = bswap16 (mem.read (iph + 2) 2);
      l4_proto = mem.read (iph + 9) 1;
      ip_version = get_ip_version mem iph;
    }

unfoldable pub set_ipv6_info : Memory → ℕ → L3Info → L3Info
unfolding get_l3_header get_ip_version
set_ipv6_info mem skb l3 =
    let iph = get_l3_header mem skb in
    record l3 {
      saddr = record { pre = mem.read (iph + 8) 8; post = mem.read (iph + 16) 8 };
      daddr = record { pre = mem.read (iph + 24) 8; post = mem.read (iph + 32) 8 };
      tot_len = bswap16 (mem.read (iph + 4) 2);
      l4_proto = mem.read (iph + 6) 1;
      ip_version = get_ip_version mem iph;
    }

-- The task's number is cut to sixteen bits.
unfoldable pub set_pkt_info : Memory → ℕ → ℕ → PktInfo
unfolding get_netns get_pkt_type
set_pkt_info mem task skb =
    let name = mem.dev_name (mem.skb_dev skb) in
    record {
      ifname = if get_or name 0 0 == 0 then splice 0 (codes "nil" ++ (0 ∷ [])) name else name;
      len = mem.skb_len skb;
      cpu = mem.processor_id;
      pid = task % 2 ^ 16;
      netns = get_netns mem skb;
      pkt_type = get_pkt_type mem skb;
    }

unfoldable pub set_tcp_info : Memory → ℕ → L4Info → L4Info
unfolding get_l4_header
set_tcp_info mem skb l4 =
    let tcph = get_l4_header mem skb in
    record l4 {
      sport = bswap16 (mem.read tcph 2);
      dport = bswap16 (mem.read (tcph + 2) 2);
      ack = mem.read (tcph + 4) 4;
      tcpflags = mem.read (tcph + 12) 2;
    }

unfoldable pub set_iptables_info : Memory → ℕ → ℕ → ℕ → IptablesInfo → IptablesInfo
set_iptables_info mem table state delay info = record info {
  tablename = mem.table_name table;
  hook = mem.state_hook state;
  pf = mem.state_pf state;
  delay = delay;
}
