-- ===== src/Sock/Owner.antt =====
-- Who owns a connection over any sequence of probes.
use erda_agent.Base.{
  ℕ, nat_eq, ◌<◌, ◌≡◌, ◌≢◌, ap, ◌∙◌, inl, inr, List, [], ◌∷◌, Option, none, some, false, length,
  All, ◌==◌, arith, Bool-cases, Option-cases,
}
use erda_agent.Maps.{lookup}
use erda_agent.Maps.Laws.{
  lookup-delete_self, lookup-delete_other, lookup-update_noexist_other, lookup-update_noexist_fresh,
}
use erda_agent.Sock.{
  ConnectionInfo, ConnectionPidInfo, Kernel, Task, SockState, connection_eq, connection_beq,
  connection_beq_iff, parse_sock_info, find_msghdr_buf, owner_of, handle_tcp_connection,
  note_connection, kprobe_tcp_sendmsg, kprobe_tcp_recvmsg, forget_recv_args, kretprobe_tcp_recvmsg,
  forget_connection_info, kprobe_tcp_close,
}

-- A call of one of the four probes: the task, and the arguments or the result of the function that
-- is probed.
pub data Probe : Type 0 where
  sendmsg : (task : Task) (sk msg size : ℕ) → Probe
  recvmsg : (task : Task) (sk msg : ℕ) → Probe
  recvmsg_returns : (task : Task) (copied_len : ℕ) → Probe
  close : (task : Task) (sk : ℕ) → Probe

unfoldable pub probe : Kernel → Probe → SockState → SockState
unfolding kprobe_tcp_sendmsg kprobe_tcp_recvmsg kretprobe_tcp_recvmsg kprobe_tcp_close
probe kernel (sendmsg task sk msg size) s = kprobe_tcp_sendmsg kernel task sk msg size s
probe kernel (recvmsg task sk msg) s = kprobe_tcp_recvmsg kernel task sk msg s
probe kernel (recvmsg_returns task copied_len) s = kretprobe_tcp_recvmsg kernel task copied_len s
probe kernel (close task sk) s = kprobe_tcp_close kernel task sk s

unfoldable pub run : Kernel → List Probe → SockState → SockState
unfolding probe
run kernel [] s = s
run kernel (p ∷ ps) s = run kernel ps (probe kernel p s)

-- The probe closes no socket of the connection.
abbrev pub Spares : Kernel → ConnectionInfo → Probe → Type 0
Spares kernel conn (close task sk) = parse_sock_info kernel sk ≢ some conn
Spares kernel conn p = Unit

-- The owner of a connection.
abbrev pub owner : SockState → ConnectionInfo → Option ConnectionPidInfo
owner s conn = lookup s.filtered_connections conn

other_connection : (a b : ConnectionInfo) → some a ≢ some b → connection_beq a b ≡ false
other_connection a b ne = elim (Bool-cases (connection_beq a b)) [
  | inl same ↦ absurd (ne (ap some ((connection_beq_iff a b).0 same)))
  | inr other ↦ other
]

module _ (conn : ConnectionInfo) (i : ConnectionPidInfo) where
  handle_tcp_connection-owner :
      (task : Task) (c : ConnectionInfo) (s : SockState)
      → owner s conn ≡ some i
      → owner (handle_tcp_connection task c s) conn ≡ some i
  unfolding handle_tcp_connection
  handle_tcp_connection-owner task c s owned = elim (Option-cases (owner s c)) [
    | inr (_, e) ↦ rw (handle_tcp_connection, e) owned
    | inl e ↦
        let other : some c ≢ some conn = λ same. ground (arith, same, e, owned) in
        rw (handle_tcp_connection, e)
          (lookup-update_noexist_other s.filtered_connections c conn (owner_of task)
              (other_connection c conn other)
            ∙ owned)
  ]

  note_connection-owner :
      (kernel : Kernel) (task : Task) (sk : ℕ) (s : SockState)
      → owner s conn ≡ some i
      → owner (note_connection kernel task sk s) conn ≡ some i
  unfolding note_connection
  note_connection-owner kernel task sk s owned = elim (Option-cases (parse_sock_info kernel sk)) [
    | inl e ↦ rw (note_connection, e) owned
    | inr (c, e) ↦ rw (note_connection, e) (handle_tcp_connection-owner task c s owned)
  ]

  forget_connection_info-owner :
      (c : ConnectionInfo) (s : SockState)
      → some c ≢ some conn
      → owner s conn ≡ some i
      → owner (forget_connection_info c s) conn ≡ some i
  unfolding forget_connection_info
  forget_connection_info-owner c s other owned =
      lookup-delete_other s.filtered_connections c conn (other_connection c conn other) ∙ owned

  recvmsg_returns-owner :
      (kernel : Kernel) (task : Task) (copied_len : ℕ) (s : SockState)
      → owner s conn ≡ some i
      → owner (kretprobe_tcp_recvmsg kernel task copied_len s) conn ≡ some i
  unfolding kretprobe_tcp_recvmsg forget_recv_args
  recvmsg_returns-owner kernel task copied_len s owned =
      let s' = forget_recv_args task s in
      elim (Option-cases (lookup s.active_recv_args task.pid_tgid)) [
        | inl e ↦ ground (arith, e)
        | inr (a, e) ↦ ground (arith, e, note_connection-owner kernel task a.sock_ptr s' owned)
      ]

  close-owner :
      (kernel : Kernel) (task : Task) (sk : ℕ) (s : SockState)
      → parse_sock_info kernel sk ≢ some conn
      → owner s conn ≡ some i
      → owner (kprobe_tcp_close kernel task sk s) conn ≡ some i
  unfolding kprobe_tcp_close forget_recv_args
  close-owner kernel task sk s spares owned =
      let s' = forget_recv_args task s in
      elim (Option-cases (parse_sock_info kernel sk)) [
        | inl e ↦ ground (arith, e)
        | inr (c, e) ↦
            ground (arith, e, forget_connection_info-owner c s' (λ same. spares (e ∙ same)) owned)
      ]

  probe-owner :
      (kernel : Kernel) (p : Probe) (s : SockState)
      → Spares kernel conn p
      → owner s conn ≡ some i
      → owner (probe kernel p s) conn ≡ some i
  unfolding probe kprobe_tcp_sendmsg kprobe_tcp_recvmsg
  probe-owner kernel (sendmsg task sk msg size) s spares owned =
      ground (arith, note_connection-owner kernel task sk s owned)
  probe-owner kernel (recvmsg task sk msg) s spares owned = ground arith
  probe-owner kernel (recvmsg_returns task copied_len) s spares owned =
      recvmsg_returns-owner kernel task copied_len s owned
  probe-owner kernel (close task sk) s spares owned = close-owner kernel task sk s spares owned

  run-owner :
      (kernel : Kernel) (ps : List Probe) (s : SockState)
      → All (Spares kernel conn) ps
      → owner s conn ≡ some i
      → owner (run kernel ps s) conn ≡ some i
  unfolding run
  run-owner kernel [] s spare owned = owned
  run-owner kernel (p ∷ ps) s (spares, spare) owned =
      run-owner kernel ps (probe kernel p s) spare (probe-owner kernel p s spares owned)

pub note_connection-fresh :
    (kernel : Kernel) (task : Task) (sk : ℕ) (conn : ConnectionInfo) (s : SockState)
    → parse_sock_info kernel sk ≡ some conn
    → owner s conn ≡ none
    → length s.filtered_connections.entries < s.filtered_connections.max_entries
    → owner (note_connection kernel task sk s) conn ≡ some (owner_of task)
unfolding note_connection handle_tcp_connection
note_connection-fresh kernel task sk conn s parsed fresh room =
    rw (note_connection, parsed, handle_tcp_connection, fresh)
      (lookup-update_noexist_fresh s.filtered_connections conn (owner_of task) fresh room)

-- The task that first sends on a connection without an owner owns it, whatever the probes report
-- afterwards, until a socket of the connection is closed. The send is of at least one byte from a
-- buffer, and the map has room for the entry.
pub run-first_sender :
    (kernel : Kernel) (task : Task) (sk msg size : ℕ) (conn : ConnectionInfo) (s : SockState)
    (ps : List Probe)
    → task.pid_tgid ≢ 0
    → size ≢ 0
    → find_msghdr_buf kernel msg ≢ 0
    → parse_sock_info kernel sk ≡ some conn
    → owner s conn ≡ none
    → length s.filtered_connections.entries < s.filtered_connections.max_entries
    → All (Spares kernel conn) ps
    → owner (run kernel (sendmsg task sk msg size ∷ ps) s) conn ≡ some (owner_of task)
unfolding run probe kprobe_tcp_sendmsg
run-first_sender kernel task sk msg size conn s ps id some_bytes buffer parsed fresh room spare =
    run-owner conn (owner_of task) kernel ps (probe kernel (sendmsg task sk msg size) s) spare
      (ground (arith, note_connection-fresh kernel task sk conn s parsed fresh room))

-- Closing a socket forgets its connection: it has no owner and is no gRPC connection, and the
-- closing task has no receive pending.
pub probe-close_forgets :
    (kernel : Kernel) (task : Task) (sk : ℕ) (conn : ConnectionInfo) (s : SockState)
    → task.pid_tgid ≢ 0
    → parse_sock_info kernel sk ≡ some conn
    → let s' = probe kernel (close task sk) s in
      (owner s' conn ≡ none)
      × (lookup s'.grpc_connections conn ≡ none)
      × (lookup s'.active_recv_args task.pid_tgid ≡ none)
unfolding probe kprobe_tcp_close forget_recv_args forget_connection_info
probe-close_forgets kernel task sk conn s id parsed =
    let a = lookup-delete_self s.filtered_connections conn in
    let b = lookup-delete_self s.grpc_connections conn in
    let c = lookup-delete_self s.active_recv_args task.pid_tgid in
    let known : (task.pid_tgid == 0) ≡ false = ground arith in
    rw (kprobe_tcp_close, known, parsed) (a, b, c)
