-- ===== src/Netfilter/Tables.antt =====
-- The event of a packet that passes a table.
use erda_agent.Base.{
  ℕ, nat_eq, ◌+◌, ◌*◌, ◌%◌, ◌^◌, ◌<◌, ◌≡◌, ◌≢◌, refl, ap, ◌∙◌, List, ◌∷◌, none, some, length, All,
  u8, sub64, bswap16, bit_or,
}
use erda_agent.Maps.{lookup}
use erda_agent.Maps.Laws.{lookup-delete_self, lookup-update_self}
use erda_agent.Packet.{eth_p_ip}
use erda_agent.Netfilter.Types.{Memory, NfState, IptDoTableArgs, Event, v4addr, zero_event}
use erda_agent.Netfilter.Headers.{
  get_ip_version, get_ipv4_header_len, get_l3_header, get_l4_header, set_ipv4_info, set_pkt_info,
  set_ether_info, set_tcp_info, set_iptables_info,
}
use erda_agent.Netfilter.Probes.{
  fill_l3, fill_event_info, table_event, kprobe_ipt_do_table, kretprobe_ipt_do_table,
}
use erda_agent.Netfilter.Pairing.{
  NfProbe, do_table, do_table_returns, nf_probe, nf_run, nf_task, nf_run-Same,
}

-- A packet with an IPv4 header at `iph`, without options or with, and a TCP header behind it.
pub record IsTcp4 (mem : Memory) (skb iph : ℕ) : Type 0 where
  pub header_at : get_l3_header mem skb ≡ iph
  pub version_4 : get_ip_version mem iph ≡ 4
  pub protocol_tcp : mem.read (iph + 9) 1 ≡ 6

-- The event tells of the passage of the packet through the table.
pub record IsPassage (mem : Memory) (skb iph state table delay : ℕ) (e : Event) : Type 0 where
  pub both_flags : e.flags ≡ 3
  pub of_packet : e.skb ≡ skb
  pub network : e.l2_info.l3_proto ≡ eth_p_ip
  pub source : e.l3_info.saddr ≡ v4addr (mem.read (iph + 12) 4)
  pub destination : e.l3_info.daddr ≡ v4addr (mem.read (iph + 16) 4)
  pub source_port : e.l4_info.sport ≡ bswap16 (mem.read (iph + u8 (mem.read iph 1 % 2 ^ 4 * 4)) 2)
  pub named : e.ipt_info.tablename ≡ mem.table_name table
  pub hooked : e.ipt_info.hook ≡ mem.state_hook state
  pub delayed : e.ipt_info.delay ≡ delay
  pub no_verdict : e.ipt_info.verdict ≡ 0

get_l4_header-tcp4 :
    (mem : Memory) (skb iph : ℕ)
    → IsTcp4 mem skb iph
    → get_l4_header mem skb ≡ iph + u8 (mem.read iph 1 % 2 ^ 4 * 4)
unfolding get_l4_header get_ipv4_header_len
get_l4_header-tcp4 mem skb iph p = rw (get_l4_header, p.header_at, p.version_4) refl

fill_l3-tcp4 :
    (mem : Memory) (skb iph : ℕ) (e : Event)
    → IsTcp4 mem skb iph
    → fill_l3 mem skb e
      ≡ some (record e {
        l2_info = record (e.l2_info) { l3_proto = eth_p_ip };
        l3_info = set_ipv4_info mem skb e.l3_info;
      })
unfolding fill_l3
fill_l3-tcp4 mem skb iph e p =
    let version = ap (get_ip_version mem) p.header_at ∙ p.version_4 in rw (fill_l3, version) refl

-- What `fill_event_info` makes of an event for such a packet.
abbrev filled : Memory → ℕ → ℕ → ℕ → Event → Event
filled mem now task skb e = record e {
  flags = bit_or e.flags 1;
  skb = skb;
  start_ns = now;
  pkt_info = set_pkt_info mem task skb;
  l2_info = record (set_ether_info mem skb e.l2_info) { l3_proto = eth_p_ip };
  l3_info = set_ipv4_info mem skb e.l3_info;
  l4_info = set_tcp_info mem skb e.l4_info;
}

fill_event_info-tcp4 :
    (mem : Memory) (now task skb iph : ℕ) (e : Event)
    → IsTcp4 mem skb iph
    → fill_event_info mem now task skb e ≡ some (filled mem now task skb e)
unfolding fill_event_info set_ipv4_info
fill_event_info-tcp4 mem now task skb iph e p =
    let common = record e {
      flags = bit_or e.flags 1;
      skb = skb;
      start_ns = now;
      pkt_info = set_pkt_info mem task skb;
      l2_info = set_ether_info mem skb e.l2_info;
    } in
    let tcp : mem.read (get_l3_header mem skb + 9) 1 ≡ 6 =
      ap (λ h. mem.read (h + 9) 1) p.header_at ∙ p.protocol_tcp in
    rw (fill_event_info, fill_l3-tcp4 mem skb iph common p, tcp) refl

table_event-IsPassage :
    (mem : Memory) (now1 now2 task : ℕ) (args : IptDoTableArgs) (iph : ℕ)
    → IsTcp4 mem args.skb_ptr iph
    → (e : Event) × (table_event mem now1 now2 task args ≡ some e)
      × IsPassage mem args.skb_ptr iph args.state_ptr args.table_ptr (sub64 now1 args.start_ns) e
unfolding table_event set_iptables_info set_ipv4_info set_tcp_info
table_event-IsPassage mem now1 now2 task args iph p =
    let delay = sub64 now1 args.start_ns in
    let start = record zero_event { ipt_info = record (zero_event.ipt_info) { delay = delay } } in
    let e = filled mem now2 task args.skb_ptr start in
    let info = set_iptables_info mem args.table_ptr args.state_ptr delay e.ipt_info in
    let ports = get_l4_header-tcp4 mem args.skb_ptr iph p in
    (
      record e { flags = bit_or e.flags 2; ipt_info = info },
      rw (table_event, fill_event_info-tcp4 mem now2 task args.skb_ptr iph start p) refl,
      record {
        both_flags = refl;
        of_packet = refl;
        network = refl;
        source = ap (λ h. v4addr (mem.read (h + 12) 4)) p.header_at;
        destination = ap (λ h. v4addr (mem.read (h + 16) 4)) p.header_at;
        source_port = ap (λ h. bswap16 (mem.read h 2)) ports;
        named = refl;
        hooked = refl;
        delayed = refl;
        no_verdict = refl;
      },
    )

do_table_returns_lem :
    (mem : Memory) (now1 now2 task : ℕ) (args : IptDoTableArgs) (e : Event) (s : NfState)
    → lookup s.ipt_maps task ≡ some args
    → table_event mem now1 now2 task args ≡ some e
    → length s.event_buf.entries < s.event_buf.max_entries
    → let s' = kretprobe_ipt_do_table mem now1 now2 task s in
      (lookup s'.ipt_maps task ≡ none) × (lookup s'.event_buf task ≡ some e)
unfolding kretprobe_ipt_do_table
do_table_returns_lem mem now1 now2 task args e s entered event room =
    rw (kretprobe_ipt_do_table, entered, event)
      (lookup-delete_self s.ipt_maps task, lookup-update_self s.event_buf task e room)

-- A task enters `ipt_do_table` with an IPv4 packet that carries TCP, other tasks do as they like, and
-- the task returns: it has entered nothing any more, and its event is of this packet, with its
-- addresses and source port, the table's name, the hook and the time between; the verdict is 0,
-- whatever the function returned. Both maps have room.
pub nf_run-do_table :
    (mem : Memory) (now now1 now2 task skb iph state table : ℕ) (s : NfState) (ps : List NfProbe)
    → IsTcp4 mem skb iph
    → All (λ p. nf_task p ≢ task) ps
    → let s1 = nf_run mem (do_table now task skb state table ∷ ps) s in
      let s2 = nf_probe mem (do_table_returns now1 now2 task) s1 in
      length s.ipt_maps.entries < s.ipt_maps.max_entries
      → length s1.event_buf.entries < s1.event_buf.max_entries
      → (lookup s2.ipt_maps task ≡ none)
        × ((e : Event) × (lookup s2.event_buf task ≡ some e)
            × IsPassage mem skb iph state table (sub64 now1 now) e)
unfolding nf_run nf_probe kprobe_ipt_do_table
nf_run-do_table mem now now1 now2 task skb iph state table s ps p others room1 room2 =
    let args : IptDoTableArgs = record {
      skb_ptr = skb;
      state_ptr = state;
      table_ptr = table;
      start_ns = now;
    } in
    let s0 = kprobe_ipt_do_table now task skb state table s in
    let same = nf_run-Same mem task ps s0 others in
    let entered = same.same_table ∙ lookup-update_self s.ipt_maps task args room1 in
    let event = table_event-IsPassage mem now1 now2 task args iph p in
    let done =
      do_table_returns_lem mem now1 now2 task args (event.0) (nf_run mem ps s0) entered (event.1)
        room2 in
    (done.0, (event.0, done.1, event.2))
