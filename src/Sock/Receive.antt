-- ===== src/Sock/Receive.antt =====
-- A receive from its call to its return, with the probes of other tasks between them.
use erda_agent.Base.{
  ℕ, nat_eq, ◌<◌, ◌≡◌, ◌≢◌, refl, ap, ◌∙◌, inl, inr, List, [], ◌∷◌, none, some, true, false, length,
  All, ◌==◌, arith, Option-cases,
}
use erda_agent.Maps.{lookup}
use erda_agent.Maps.Laws.{
  lookup-delete_self, lookup-delete_other, lookup-update_self, lookup-update_other,
}
use erda_agent.Sock.{
  ConnectionInfo, RecvArgs, Kernel, Task, SockState, connection_eq, parse_sock_info,
  find_msghdr_buf, owner_of, handle_tcp_connection, note_connection, kprobe_tcp_sendmsg,
  kprobe_tcp_recvmsg, is_positive, forget_recv_args, kretprobe_tcp_recvmsg, forget_connection_info,
  kprobe_tcp_close,
}
use erda_agent.Sock.Owner.{
  Probe, sendmsg, recvmsg, recvmsg_returns, close, probe, run, owner, note_connection-fresh,
}

-- The task that a probe runs in.
abbrev pub task_of : Probe → Task
task_of (sendmsg task sk msg size) = task
task_of (recvmsg task sk msg) = task
task_of (recvmsg_returns task copied_len) = task
task_of (close task sk) = task

abbrev pub OfOtherTask : ℕ → Probe → Type 0
OfOtherTask id p = (task_of p).pid_tgid ≢ id

note_connection-args :
    (kernel : Kernel) (task : Task) (sk : ℕ) (s : SockState)
    → (note_connection kernel task sk s).active_recv_args ≡ s.active_recv_args
unfolding note_connection handle_tcp_connection
note_connection-args kernel task sk s = ground arith

module _ (id : ℕ) where
  -- What the task that is identified waits to receive is as it was.
  abbrev Same : SockState → SockState → Type 0
  Same s s' = lookup s'.active_recv_args id ≡ lookup s.active_recv_args id

  other_id : (a : ℕ) → a ≢ id → (a == id) ≡ false
  other_id a ne = ground arith

  forget_recv_args-Same :
      (task : Task) (s : SockState) → task.pid_tgid ≢ id → Same s (forget_recv_args task s)
  unfolding forget_recv_args
  forget_recv_args-Same task s ne =
      lookup-delete_other s.active_recv_args task.pid_tgid id (other_id task.pid_tgid ne)

  recvmsg-Same :
      (kernel : Kernel) (task : Task) (sk msg : ℕ) (s : SockState)
      → task.pid_tgid ≢ id
      → Same s (kprobe_tcp_recvmsg kernel task sk msg s)
  unfolding kprobe_tcp_recvmsg
  recvmsg-Same kernel task sk msg s ne =
      let args : RecvArgs = record { sock_ptr = sk; iovec_ptr = find_msghdr_buf kernel msg } in
      ground (
        arith,
        lookup-update_other s.active_recv_args task.pid_tgid id args (other_id task.pid_tgid ne),
      )

  recvmsg_returns-Same :
      (kernel : Kernel) (task : Task) (copied_len : ℕ) (s : SockState)
      → task.pid_tgid ≢ id
      → Same s (kretprobe_tcp_recvmsg kernel task copied_len s)
  unfolding kretprobe_tcp_recvmsg
  recvmsg_returns-Same kernel task copied_len s ne =
      let s' = forget_recv_args task s in
      let same = forget_recv_args-Same task s ne in
      elim (Option-cases (lookup s.active_recv_args task.pid_tgid)) [
        | inl e ↦ ground (arith, e, same)
        | inr (a, e) ↦ ground (arith, e, same, note_connection-args kernel task a.sock_ptr s')
      ]

  close-Same :
      (kernel : Kernel) (task : Task) (sk : ℕ) (s : SockState)
      → task.pid_tgid ≢ id
      → Same s (kprobe_tcp_close kernel task sk s)
  unfolding kprobe_tcp_close forget_connection_info
  close-Same kernel task sk s ne =
      let same = forget_recv_args-Same task s ne in
      elim (Option-cases (parse_sock_info kernel sk)) [
        | inl e ↦ ground (arith, e, same)
        | inr (c, e) ↦ ground (arith, e, same)
      ]

  probe-Same :
      (kernel : Kernel) (p : Probe) (s : SockState) → OfOtherTask id p → Same s (probe kernel p s)
  unfolding probe kprobe_tcp_sendmsg
  probe-Same kernel (sendmsg task sk msg size) s ne =
      ground (arith, note_connection-args kernel task sk s)
  probe-Same kernel (recvmsg task sk msg) s ne = recvmsg-Same kernel task sk msg s ne
  probe-Same kernel (recvmsg_returns task copied_len) s ne =
      recvmsg_returns-Same kernel task copied_len s ne
  probe-Same kernel (close task sk) s ne = close-Same kernel task sk s ne

  run-Same :
      (kernel : Kernel) (ps : List Probe) (s : SockState)
      → All (OfOtherTask id) ps
      → Same s (run kernel ps s)
  unfolding run
  run-Same kernel [] s others = refl
  run-Same kernel (p ∷ ps) s (other, others) =
      run-Same kernel ps (probe kernel p s) others ∙ probe-Same kernel p s other

-- The return of a receive that waits is the note of its socket's connection.
returns-notes :
    (kernel : Kernel) (task : Task) (copied_len : ℕ) (s : SockState) (a : RecvArgs)
    → task.pid_tgid ≢ 0
    → is_positive copied_len ≡ true
    → lookup s.active_recv_args task.pid_tgid ≡ some a
    → kretprobe_tcp_recvmsg kernel task copied_len s
      ≡ note_connection kernel task a.sock_ptr (forget_recv_args task s)
unfolding kretprobe_tcp_recvmsg
returns-notes kernel task copied_len s a id positive waiting =
    let known : (task.pid_tgid == 0) ≡ false = ground arith in
    rw (kretprobe_tcp_recvmsg, known, waiting, positive) refl

recvmsg-waits :
    (kernel : Kernel) (task : Task) (sk msg : ℕ) (s : SockState)
    → task.pid_tgid ≢ 0
    → length s.active_recv_args.entries < s.active_recv_args.max_entries
    → lookup (kprobe_tcp_recvmsg kernel task sk msg s).active_recv_args task.pid_tgid
      ≡ some (record { sock_ptr = sk; iovec_ptr = find_msghdr_buf kernel msg })
unfolding kprobe_tcp_recvmsg
recvmsg-waits kernel task sk msg s id room =
    let known : (task.pid_tgid == 0) ≡ false = ground arith in
    rw (kprobe_tcp_recvmsg, known) (lookup-update_self s.active_recv_args task.pid_tgid _ room)

-- A task calls a receive on a socket, other tasks send, receive and close as they like, and the
-- receive returns some bytes: if the socket's connection has no owner by then, the task owns it; and
-- the task waits for no receive any more. Both maps have room for their entry.
pub run-receives :
    (kernel : Kernel) (task : Task) (sk msg copied_len : ℕ) (conn : ConnectionInfo) (s : SockState)
    (ps : List Probe)
    → task.pid_tgid ≢ 0
    → is_positive copied_len ≡ true
    → parse_sock_info kernel sk ≡ some conn
    → let s1 = run kernel (recvmsg task sk msg ∷ ps) s in
      let s2 = probe kernel (recvmsg_returns task copied_len) s1 in
      length s.active_recv_args.entries < s.active_recv_args.max_entries
      → All (OfOtherTask task.pid_tgid) ps
      → owner s1 conn ≡ none
      → length s1.filtered_connections.entries < s1.filtered_connections.max_entries
      → (owner s2 conn ≡ some (owner_of task)) × (lookup s2.active_recv_args task.pid_tgid ≡ none)
unfolding run probe forget_recv_args
run-receives kernel task sk msg copied_len conn s ps id positive parsed room others fresh room' =
    let args : RecvArgs = record { sock_ptr = sk; iovec_ptr = find_msghdr_buf kernel msg } in
    let s0 = kprobe_tcp_recvmsg kernel task sk msg s in
    let s1 = run kernel ps s0 in
    let waiting : lookup s1.active_recv_args task.pid_tgid ≡ some args =
      run-Same task.pid_tgid kernel ps s0 others ∙ recvmsg-waits kernel task sk msg s id room in
    rw (returns-notes kernel task copied_len s1 args id positive waiting) (
      note_connection-fresh kernel task sk conn (forget_recv_args task s1) parsed fresh room',
      ap (λ m. lookup m task.pid_tgid)
            (note_connection-args kernel task sk (forget_recv_args task s1))
          ∙ lookup-delete_self s1.active_recv_args task.pid_tgid,
    )
