-- ===== src/Netfilter/Pairing.antt =====
-- A probe at the entry of a function and the one at its return, with the probes of other tasks
-- between them.
use erda_agent.Base.{
  ℕ, nat_eq, ◌<◌, ◌≡◌, ◌≢◌, refl, ◌∙◌, inl, inr, List, [], ◌∷◌, none, some, true, false, ◌==◌,
  length, All, arith, Option-cases, Bool-cases,
}
use erda_agent.Maps.{lookup}
use erda_agent.Maps.Laws.{
  lookup-delete_self, lookup-delete_other, lookup-update_self, lookup-update_other,
}
use erda_agent.Netfilter.Types.{Memory, NfState, IptDoTableArgs}
use erda_agent.Netfilter.Probes.{
  is_dns, nf_tuple_of, table_event, kprobe_nf_nat_setup_info, kretprobe_nf_nat_setup_info,
  kprobe_ipt_do_table, kretprobe_ipt_do_table,
}

-- A call of one of the four probes: the task, the clock and the arguments.
pub data NfProbe : Type 0 where
  setup_info : (task conn : ℕ) → NfProbe
  setup_info_returns : (now task : ℕ) → NfProbe
  do_table : (now task skb state table : ℕ) → NfProbe
  do_table_returns : (now1 now2 task : ℕ) → NfProbe

unfoldable pub nf_probe : Memory → NfProbe → NfState → NfState
unfolding kprobe_nf_nat_setup_info kretprobe_nf_nat_setup_info kprobe_ipt_do_table
    kretprobe_ipt_do_table
nf_probe mem (setup_info task conn) s = kprobe_nf_nat_setup_info task conn s
nf_probe mem (setup_info_returns now task) s = kretprobe_nf_nat_setup_info mem now task s
nf_probe mem (do_table now task skb state table) s = kprobe_ipt_do_table now task skb state table s
nf_probe mem (do_table_returns now1 now2 task) s = kretprobe_ipt_do_table mem now1 now2 task s

unfoldable pub nf_run : Memory → List NfProbe → NfState → NfState
unfolding nf_probe
nf_run mem [] s = s
nf_run mem (p ∷ ps) s = nf_run mem ps (nf_probe mem p s)

abbrev pub nf_task : NfProbe → ℕ
nf_task (setup_info task conn) = task
nf_task (setup_info_returns now task) = task
nf_task (do_table now task skb state table) = task
nf_task (do_table_returns now1 now2 task) = task

-- What the task has entered and not left yet.
pub record Same (task : ℕ) (s s' : NfState) : Type 0 where
  pub same_conn : lookup s'.conn_maps task ≡ lookup s.conn_maps task
  pub same_table : lookup s'.ipt_maps task ≡ lookup s.ipt_maps task

Same-refl : (task : ℕ) (s : NfState) → Same task s s
Same-refl task s = record { same_conn = refl; same_table = refl }

module _ (mem : Memory) (task : ℕ) where
  other_task : (a : ℕ) → a ≢ task → (a == task) ≡ false
  other_task a ne = ground arith

  setup_info_returns-Same :
      (now a : ℕ) (s : NfState) → a ≢ task → Same task s (kretprobe_nf_nat_setup_info mem now a s)
  unfolding kretprobe_nf_nat_setup_info
  setup_info_returns-Same now a s ne = elim (Option-cases (lookup s.conn_maps a)) [
    | inl e ↦ rw (kretprobe_nf_nat_setup_info, e) (Same-refl task s)
    | inr (conn, e) ↦
        let d = lookup-delete_other s.conn_maps a task (other_task a ne) in
        elim (Bool-cases (is_dns (mem.original_tuple conn))) [
          | inl dns ↦
              rw (kretprobe_nf_nat_setup_info, e, dns) (record { same_conn = d; same_table = refl })
          | inr kept ↦
              rw (kretprobe_nf_nat_setup_info, e, kept)
                (record { same_conn = d; same_table = refl })
        ]
  ]

  do_table_returns-Same :
      (now1 now2 a : ℕ) (s : NfState)
      → a ≢ task
      → Same task s (kretprobe_ipt_do_table mem now1 now2 a s)
  unfolding kretprobe_ipt_do_table
  do_table_returns-Same now1 now2 a s ne = elim (Option-cases (lookup s.ipt_maps a)) [
    | inl e ↦ rw (kretprobe_ipt_do_table, e) (Same-refl task s)
    | inr (args, e) ↦
        let d = lookup-delete_other s.ipt_maps a task (other_task a ne) in
        elim (Option-cases (table_event mem now1 now2 a args)) [
          | inl none_left ↦
              rw (kretprobe_ipt_do_table, e, none_left)
                (record { same_conn = refl; same_table = d })
          | inr (event, filled) ↦
              rw (kretprobe_ipt_do_table, e, filled) (record { same_conn = refl; same_table = d })
        ]
  ]

  nf_probe-Same : (p : NfProbe) (s : NfState) → nf_task p ≢ task → Same task s (nf_probe mem p s)
  unfolding nf_probe kprobe_nf_nat_setup_info kprobe_ipt_do_table
  nf_probe-Same (setup_info a conn) s ne = record {
    same_conn = lookup-update_other s.conn_maps a task conn (other_task a ne);
    same_table = refl;
  }
  nf_probe-Same (setup_info_returns now a) s ne = setup_info_returns-Same now a s ne
  nf_probe-Same (do_table now a skb state table) s ne =
      let args : IptDoTableArgs = record {
        skb_ptr = skb;
        state_ptr = state;
        table_ptr = table;
        start_ns = now;
      } in
      record {
        same_conn = refl;
        same_table = lookup-update_other s.ipt_maps a task args (other_task a ne);
      }
  nf_probe-Same (do_table_returns now1 now2 a) s ne = do_table_returns-Same now1 now2 a s ne

  pub nf_run-Same :
      (ps : List NfProbe) (s : NfState)
      → All (λ p. nf_task p ≢ task) ps
      → Same task s (nf_run mem ps s)
  unfolding nf_run
  nf_run-Same [] s others = Same-refl task s
  nf_run-Same (p ∷ ps) s (other, others) =
      let first = nf_probe-Same p s other in
      let rest = nf_run-Same ps (nf_probe mem p s) others in
      record {
        same_conn = rest.same_conn ∙ first.same_conn;
        same_table = rest.same_table ∙ first.same_table;
      }

setup_info_returns_lem :
    (mem : Memory) (now task conn : ℕ) (s : NfState)
    → lookup s.conn_maps task ≡ some conn
    → length s.nf_conn_maps.entries < s.nf_conn_maps.max_entries
    → let s' = kretprobe_nf_nat_setup_info mem now task s in
      let original = mem.original_tuple conn in
      (lookup s'.conn_maps task ≡ none)
      × (is_dns original ≡ true → s'.nf_conn_maps ≡ s.nf_conn_maps)
      × (is_dns original ≡ false
          → lookup s'.nf_conn_maps now ≡ some (nf_tuple_of original (mem.reply_tuple conn)))
unfolding kretprobe_nf_nat_setup_info
setup_info_returns_lem mem now task conn s entered room =
    let d = lookup-delete_self s.conn_maps task in
    let original = mem.original_tuple conn in
    let u =
      lookup-update_self s.nf_conn_maps now (nf_tuple_of original (mem.reply_tuple conn)) room in
    elim (Bool-cases (is_dns original)) [
      | inl dns ↦
          rw (kretprobe_nf_nat_setup_info, entered, dns) (d, (λ e. refl), (λ e. ground (arith, e)))
      | inr kept ↦
          rw (kretprobe_nf_nat_setup_info, entered, kept) (d, (λ e. ground (arith, e)), (λ e. u))
    ]

-- A task enters `nf_nat_setup_info` with a connection, other tasks do as they like, and the task
-- returns: it has entered nothing any more, and unless the original tuple is taken for DNS, the
-- tuples of the connection stand under the time of the return. Both maps have room.
pub nf_run-setup_info :
    (mem : Memory) (now task conn : ℕ) (s : NfState) (ps : List NfProbe)
    → All (λ p. nf_task p ≢ task) ps
    → let s1 = nf_run mem (setup_info task conn ∷ ps) s in
      let s2 = nf_probe mem (setup_info_returns now task) s1 in
      let original = mem.original_tuple conn in
      length s.conn_maps.entries < s.conn_maps.max_entries
      → length s1.nf_conn_maps.entries < s1.nf_conn_maps.max_entries
      → (lookup s2.conn_maps task ≡ none)
        × (is_dns original ≡ true → s2.nf_conn_maps ≡ s1.nf_conn_maps)
        × (is_dns original ≡ false
            → lookup s2.nf_conn_maps now ≡ some (nf_tuple_of original (mem.reply_tuple conn)))
unfolding nf_run nf_probe kprobe_nf_nat_setup_info
nf_run-setup_info mem now task conn s ps others room1 room2 =
    let s0 = kprobe_nf_nat_setup_info task conn s in
    let same = nf_run-Same mem task ps s0 others in
    setup_info_returns_lem mem now task conn (nf_run mem ps s0)
      (same.same_conn ∙ lookup-update_self s.conn_maps task conn room1) room2
