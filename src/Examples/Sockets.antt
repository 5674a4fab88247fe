-- ===== src/Examples/Sockets.antt =====
-- Probes on a socket.
use erda_agent.Base.{nat_eq, ◌≡◌, ◌*◌, ◌^◌, refl, [], ◌∷◌, none, some, arith}
use erda_agent.Maps.{empty, lookup}
use erda_agent.Sock.{
  ConnectionInfo, Kernel, Task, SockState, connection_eq, connection_beq, parse_sock_info,
  find_msghdr_buf, is_positive, kprobe_tcp_sendmsg, kprobe_tcp_recvmsg,
}
use erda_agent.Sock.Owner.{
  sendmsg, recvmsg, recvmsg_returns, close, probe, run, owner, run-first_sender,
  probe-close_forgets,
}
use erda_agent.Sock.Receive.{run-receives}

-- Sockets of one host, each with its number as its port, to the port 80 of another host.
abbrev kernel : Kernel
kernel = record {
  skc_family = λ sk. 2;
  skc_num = λ sk. sk;
  skc_rcv_saddr = λ sk. 10;
  skc_dport = λ sk. 20480;
  skc_daddr = λ sk. 11;
  skc_v6_rcv_saddr = λ sk. 0;
  skc_v6_daddr = λ sk. 0;
  iter_type = λ msg. 0;
  iov = λ msg. msg;
  iov_base = λ iov. iov;
}

abbrev first_task : Task
first_task = record { pid_tgid = 7 * 2 ^ 32; comm = b'a' ∷ [] }

abbrev second_task : Task
second_task = record { pid_tgid = 8 * 2 ^ 32; comm = b'b' ∷ [] }

abbrev connection : ConnectionInfo
connection = record { s_port = 5; d_port = 80; s_addr = 10; d_addr = 11 }

abbrev pub no_sockets : SockState
no_sockets = record {
  active_recv_args = empty 16384;
  filtered_connections = empty 16384;
  grpc_connections = empty 16384;
}

run-first_sender_example :
    owner
      (run kernel
        (sendmsg first_task 5 1 100 ∷ sendmsg second_task 5 1 100 ∷ close second_task 6 ∷ [])
        no_sockets)
      connection
    ≡ some (record { pid = 7; fcomm = b'a' ∷ []; tgid = 30064771072 })
unfolding parse_sock_info find_msghdr_buf lookup
run-first_sender_example =
    run-first_sender kernel first_task 5 1 100 connection no_sockets
      (sendmsg second_task 5 1 100 ∷ close second_task 6 ∷ []) (λ e. absurd (omega (arith, e)))
      (λ e. absurd (omega (arith, e))) (λ e. absurd (omega (arith, e))) refl refl (omega arith)
      (tt, ((λ e. ground (arith, e)), tt))

probe-close_forgets_example :
    let s' =
      probe kernel (close first_task 5) (run kernel (sendmsg first_task 5 1 100 ∷ []) no_sockets) in
    (owner s' connection ≡ none)
    × (lookup s'.grpc_connections connection ≡ none)
    × (lookup s'.active_recv_args (7 * 2 ^ 32) ≡ none)
unfolding parse_sock_info
probe-close_forgets_example =
    probe-close_forgets kernel first_task 5 connection
      (run kernel (sendmsg first_task 5 1 100 ∷ []) no_sockets) (λ e. absurd (omega (arith, e)))
      refl

run-receives_example :
    let s1 = run kernel (recvmsg first_task 5 1 ∷ sendmsg second_task 6 1 100 ∷ []) no_sockets in
    let s2 = probe kernel (recvmsg_returns first_task 64) s1 in
    (owner s2 connection ≡ some (record { pid = 7; fcomm = b'a' ∷ []; tgid = 30064771072 }))
    × (lookup s2.active_recv_args (7 * 2 ^ 32) ≡ none)
unfolding run probe parse_sock_info is_positive lookup kprobe_tcp_recvmsg kprobe_tcp_sendmsg
    connection_beq
run-receives_example =
    run-receives kernel first_task 5 1 64 connection no_sockets (sendmsg second_task 6 1 100 ∷ [])
      (λ e. absurd (omega (arith, e))) refl refl (omega arith)
      ((λ e. absurd (omega (arith, e))), tt) refl (omega arith)
