-- ===== src/Examples/Kernel.antt =====
-- The probes on netfilter and the probes that note a process.
use erda_agent.Base.{
  nat_eq, ◌*◌, ◌^◌, ◌≡◌, refl, inr, [], ◌∷◌, none, some, true, false, ◌==◌, if◌then◌else◌,
  replicate, arith, codes, ◌++◌,
}
use erda_agent.Maps.{empty, lookup}
use erda_agent.Netfilter.Types.{Memory, CtTuple, NfState, Event}
use erda_agent.Netfilter.Headers.{get_l3_header, get_ip_version}
use erda_agent.Netfilter.Probes.{is_dns, nf_tuple_of}
use erda_agent.Netfilter.Pairing.{
  setup_info, setup_info_returns, do_table, do_table_returns, nf_probe, nf_run, nf_run-setup_info,
}
use erda_agent.Netfilter.Tables.{IsTcp4, IsPassage, nf_run-do_table}
use erda_agent.Kprobes.{Current, OomStats, zero_oom, kprobe_oom_kill_process}
use erda_agent.Kprobes.Records.{kprobe_oom_kill_process-IsNoted, IsNoted}

-- From the port 12345 to the port 80, which is translated to the port 8080 of another host.
abbrev original : CtTuple
original = record { src_ip = 10; src_port = 14640; dst_ip = 11; dst_port = 20480 }

abbrev reply : CtTuple
reply = record { src_ip = 12; src_port = 36895; dst_ip = 10; dst_port = 14640 }

-- Every packet has an IPv4 header without options at 1020, and TCP behind it.
abbrev host : Memory
host = record {
  original_tuple = λ conn. original;
  reply_tuple = λ conn. reply;
  skb_head = λ skb. 1000;
  skb_mac_header = λ skb. 6;
  skb_network_header = λ skb. 20;
  skb_len = λ skb. 60;
  skb_dev = λ skb. 2;
  skb_pkt_type_byte = λ skb. 0;
  dev_netns = λ skb. 1;
  sk_netns = λ skb. 1;
  dev_name = λ dev. codes "eth0" ++ replicate 12 0;
  table_name = λ table. codes "nat" ++ replicate 29 0;
  state_hook = λ state. 3;
  state_pf = λ state. 2;
  read = λ p n. if p == 1020 then 69 else if p == 1029 then 6 else 0;
  processor_id = 0;
}

abbrev no_probes : NfState
no_probes = record {
  conn_maps = empty 10240;
  ipt_maps = empty 10240;
  nf_conn_maps = empty 1048576;
  event_buf = empty 10240;
}

nf_run-setup_info_example :
    let s1 = nf_run host (setup_info 7 100 ∷ setup_info 8 200 ∷ []) no_probes in
    let s2 = nf_probe host (setup_info_returns 50 7) s1 in
    (lookup s2.conn_maps 7 ≡ none)
    × (is_dns original ≡ true → s2.nf_conn_maps ≡ s1.nf_conn_maps)
    × (is_dns original ≡ false → lookup s2.nf_conn_maps 50 ≡ some (nf_tuple_of original reply))
unfolding nf_run nf_probe
nf_run-setup_info_example =
    nf_run-setup_info host 50 7 100 no_probes (setup_info 8 200 ∷ [])
      ((λ e. absurd (omega (arith, e))), tt) (omega arith) (omega arith)

tcp_packet : IsTcp4 host 300 1020
unfolding get_l3_header get_ip_version
tcp_packet = record { header_at = refl; version_4 = refl; protocol_tcp = refl }

nf_run-do_table_example :
    let s1 = nf_run host (do_table 5 7 300 400 500 ∷ setup_info 8 200 ∷ []) no_probes in
    let s2 = nf_probe host (do_table_returns 9 9 7) s1 in
    (lookup s2.ipt_maps 7 ≡ none)
    × ((e : Event) × (lookup s2.event_buf 7 ≡ some e) × IsPassage host 300 1020 400 500 4 e)
unfolding nf_run nf_probe
nf_run-do_table_example =
    nf_run-do_table host 5 9 9 7 300 1020 400 500 no_probes (setup_info 8 200 ∷ []) tcp_packet
      ((λ e. absurd (omega (arith, e))), tt) (omega arith) (omega arith)

abbrev current : Current
current = record {
  pid_tgid = 7 * 2 ^ 32;
  comm = codes "java" ++ replicate 12 0;
  cgroup_id = 99;
  cur_tsk = 5000;
  cgroup_name = some (codes "pod");
}

kprobe_oom_kill_process-IsNoted_example :
    let m' = kprobe_oom_kill_process current 1 (empty 16384) in
    ((entry : OomStats) × (lookup m' 7 ≡ some entry) × IsNoted current zero_oom entry)
    × (lookup m' 8 ≡ none)
unfolding lookup
kprobe_oom_kill_process-IsNoted_example =
    kprobe_oom_kill_process-IsNoted current 1 8 (empty 16384) (λ e. absurd (omega (arith, e)))
      (inr (omega arith)) (refl, (refl, (refl, tt))) refl refl
