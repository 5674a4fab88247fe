-- ===== src/Netfilter/Probes.antt =====
-- The probes of ebpf/plugins/netfilter/main.c. A task is its `pid_tgid`.
use erda_agent.Base.{
  ℕ, Option, none, some, Bool, ◌||◌, ◌==◌, if◌then◌else◌, sub64, bswap16, nat_eq, bit_or,
}
use erda_agent.Maps.{lookup, update, delete}
use erda_agent.Packet.{eth_p_ip, eth_p_ipv6, ipproto_tcp}
use erda_agent.Netfilter.Types.{
  v4addr, NfTuple, IptDoTableArgs, Event, CtTuple, Memory, NfState, zero_event,
}
use erda_agent.Netfilter.Headers.{
  get_ip_version, get_l3_header, set_ether_info, set_ipv4_info, set_ipv6_info, set_pkt_info,
  set_tcp_info, set_iptables_info,
}

-- The part of `fill_event_info` that depends on the version of IP; `none` where it returns false.
unfoldable pub fill_l3 : Memory → ℕ → Event → Option Event
unfolding get_l3_header get_ip_version set_ipv4_info set_ipv6_info
fill_l3 mem skb e =
    let ip_version = get_ip_version mem (get_l3_header mem skb) in
    if ip_version == 4
    then some (record e {
      l2_info = record (e.l2_info) { l3_proto = eth_p_ip };
      l3_info = set_ipv4_info mem skb e.l3_info;
    })
    else if ip_version == 6
    then some (record e {
      l2_info = record (e.l2_info) { l3_proto = eth_p_ipv6 };
      l3_info = set_ipv6_info mem skb e.l3_info;
    })
    else none

unfoldable pub fill_event_info : Memory → ℕ → ℕ → ℕ → Event → Option Event
unfolding fill_l3 set_pkt_info set_ether_info set_tcp_info
fill_event_info mem now task skb e =
    let common = record e {
      flags = bit_or e.flags 1;
      skb = skb;
      start_ns = now;
      pkt_info = set_pkt_info mem task skb;
      l2_info = set_ether_info mem skb e.l2_info;
    } in
    elim (fill_l3 mem skb common) [
      | none ↦ none
      | some e' ↦
          if e'.l3_info.l4_proto == ipproto_tcp
          then some (record e' { l4_info = set_tcp_info mem skb e'.l4_info })
          else none
    ]

unfoldable pub kprobe_nf_nat_setup_info : ℕ → ℕ → NfState → NfState
unfolding update
kprobe_nf_nat_setup_info task conn s = record s { conn_maps = update s.conn_maps task conn }

-- Are the tuples of a connection for DNS? Only the destination's bytes are swapped.
unfoldable pub is_dns : CtTuple → Bool
is_dns original = original.src_port == 53 || bswap16 original.dst_port == 53

unfoldable pub nf_tuple_of : CtTuple → CtTuple → NfTuple
nf_tuple_of original reply = record {
  src = v4addr reply.src_ip;
  dst = v4addr reply.dst_ip;
  sport = bswap16 reply.src_port;
  dport = bswap16 reply.dst_port;
  ori_src = v4addr original.src_ip;
  ori_dst = v4addr original.dst_ip;
  ori_sport = bswap16 original.src_port;
  ori_dport = bswap16 original.dst_port;
}

unfoldable pub kretprobe_nf_nat_setup_info : Memory → ℕ → ℕ → NfState → NfState
unfolding lookup delete update is_dns nf_tuple_of
kretprobe_nf_nat_setup_info mem now task s = elim (lookup s.conn_maps task) [
  | none ↦ s
  | some conn ↦
      let s' = record s { conn_maps = delete s.conn_maps task } in
      let original = mem.original_tuple conn in
      if is_dns original then s' else record s' {
        nf_conn_maps = update s.nf_conn_maps now (nf_tuple_of original (mem.reply_tuple conn));
      }
]

unfoldable pub kprobe_ipt_do_table : ℕ → ℕ → ℕ → ℕ → ℕ → NfState → NfState
unfolding update
kprobe_ipt_do_table now task skb state table s = record s {
  ipt_maps =
      update s.ipt_maps task
        (record { skb_ptr = skb; state_ptr = state; table_ptr = table; start_ns = now });
}

-- The event of a table that was entered with these arguments, with two readings of the clock.
unfoldable pub table_event : Memory → ℕ → ℕ → ℕ → IptDoTableArgs → Option Event
unfolding fill_event_info set_iptables_info
table_event mem now1 now2 task args =
    let delay = sub64 now1 args.start_ns in
    let start = record zero_event { ipt_info = record (zero_event.ipt_info) { delay = delay } } in
    elim (fill_event_info mem now2 task args.skb_ptr start) [
      | none ↦ none
      | some e ↦ some (record e {
        flags = bit_or e.flags 2;
        ipt_info = set_iptables_info mem args.table_ptr args.state_ptr delay e.ipt_info;
      })
    ]

unfoldable pub kretprobe_ipt_do_table : Memory → ℕ → ℕ → ℕ → NfState → NfState
unfolding lookup delete update table_event
kretprobe_ipt_do_table mem now1 now2 task s = elim (lookup s.ipt_maps task) [
  | none ↦ s
  | some args ↦
      let s' = record s { ipt_maps = delete s.ipt_maps task } in
      elim (table_event mem now1 now2 task args) [
        | none ↦ s'
        | some e ↦ record s' { event_buf = update s.event_buf task e }
      ]
]
