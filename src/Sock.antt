-- ===== src/Sock.antt =====
-- The probes that find out which process owns a connection: ebpf/include/sock.h.
--
-- The kernel's memory is a parameter, the fields of `Kernel`: what `BPF_PROBE_READ_INTO` and
-- `bpf_probe_read` find behind a pointer. Pointers are numbers; `NULL` is 0.
pub mod Owner
pub mod Receive
use erda_agent.Base.{
  ℕ, ◌/◌, ◌^◌, ◌≡◌, ◌↔◌, List, Option, none, some, Bool, true, false, not, ◌&&◌, ◌||◌, ltb, leb,
  ◌==◌, if◌then◌else◌, u32, neg32, bswap16, Eq, nat_eq, ==_iff, arith,
}
use erda_agent.Maps.{HashMap, lookup, update, update_noexist, delete}

pub record ConnectionInfo : Type 0 where
  pub s_port : ℕ
  pub d_port : ℕ
  pub s_addr : ℕ
  pub d_addr : ℕ

pub record ConnectionPidInfo : Type 0 where
  pub pid : ℕ
  pub fcomm : List ℕ
  pub tgid : ℕ

pub record RecvArgs : Type 0 where
  pub sock_ptr : ℕ
  pub iovec_ptr : ℕ

unfoldable pub connection_beq : ConnectionInfo → ConnectionInfo → Bool
connection_beq a b =
    a.s_port == b.s_port && a.d_port == b.d_port && a.s_addr == b.s_addr && a.d_addr == b.d_addr

pub connection_beq_iff : (a b : ConnectionInfo) → (connection_beq a b ≡ true) ↔ (a ≡ b)
unfolding connection_beq
connection_beq_iff a b = ground arith

instance abbrev pub connection_eq : Eq ConnectionInfo
connection_eq = record { beq = connection_beq; beq_iff = connection_beq_iff }

-- A socket's fields, a message's and an `iovec`'s, by the address of the structure.
pub record Kernel : Type 0 where
  pub skc_family : ℕ → ℕ
  pub skc_num : ℕ → ℕ
  pub skc_rcv_saddr : ℕ → ℕ
  pub skc_dport : ℕ → ℕ
  pub skc_daddr : ℕ → ℕ
  pub skc_v6_rcv_saddr : ℕ → ℕ
  pub skc_v6_daddr : ℕ → ℕ
  pub iter_type : ℕ → ℕ
  pub iov : ℕ → ℕ
  pub iov_base : ℕ → ℕ

-- `bpf_get_current_pid_tgid` and `bpf_get_current_comm`
pub record Task : Type 0 where
  pub pid_tgid : ℕ
  pub comm : List ℕ

pub record SockState : Type 0 where
  pub active_recv_args : HashMap ℕ RecvArgs
  pub filtered_connections : HashMap ConnectionInfo ConnectionPidInfo
  pub grpc_connections : HashMap ConnectionInfo Bool

abbrev pub af_inet : ℕ
af_inet = 2

abbrev pub af_inet6 : ℕ
af_inet6 = 10

-- `none` where `parse_sock_info` returns false.
unfoldable pub parse_sock_info : Kernel → ℕ → Option ConnectionInfo
parse_sock_info kernel sk =
    if kernel.skc_family sk == af_inet
    then some (record {
      s_port = kernel.skc_num sk;
      d_port = bswap16 (kernel.skc_dport sk);
      s_addr = kernel.skc_rcv_saddr sk;
      d_addr = kernel.skc_daddr sk;
    })
    else if kernel.skc_family sk == af_inet6
    then some (record {
      s_port = kernel.skc_num sk;
      d_port = bswap16 (kernel.skc_dport sk);
      s_addr =
          if kernel.skc_v6_rcv_saddr sk == 0
          then kernel.skc_rcv_saddr sk
          else kernel.skc_v6_rcv_saddr sk;
      d_addr = if kernel.skc_v6_daddr sk == 0 then kernel.skc_daddr sk else kernel.skc_v6_daddr sk;
    })
    else none

unfoldable pub find_msghdr_buf : Kernel → ℕ → ℕ
find_msghdr_buf kernel msg =
    if kernel.iov msg == 0
    then 0
    else if kernel.iter_type msg == 6
    then kernel.iov msg
    else kernel.iov_base (kernel.iov msg)

abbrev pub owner_of : Task → ConnectionPidInfo
owner_of task = record {
  pid = u32 (task.pid_tgid / 2 ^ 32);
  fcomm = task.comm;
  tgid = task.pid_tgid;
}

-- The buffer and its size are not used.
unfoldable pub handle_tcp_connection : Task → ConnectionInfo → SockState → SockState
unfolding lookup update_noexist
handle_tcp_connection task conn s = elim (lookup s.filtered_connections conn) [
  | some _ ↦ s
  | none ↦ record s {
    filtered_connections = update_noexist s.filtered_connections conn (owner_of task);
  }
]

unfoldable pub get_pid_info : ℕ → ℕ → ℕ → ℕ → SockState → Option ConnectionPidInfo
unfolding lookup
get_pid_info s_addr d_addr s_port d_port s =
    lookup s.filtered_connections (record {
      s_port = bswap16 s_port;
      d_port = bswap16 d_port;
      s_addr = s_addr;
      d_addr = d_addr;
    })

-- The connection of a socket is noted, if it has one.
unfoldable pub note_connection : Kernel → Task → ℕ → SockState → SockState
unfolding parse_sock_info handle_tcp_connection
note_connection kernel task sk s = elim (parse_sock_info kernel sk) [
  | none ↦ s
  | some conn ↦ handle_tcp_connection task conn s
]

unfoldable pub kprobe_tcp_sendmsg : Kernel → Task → ℕ → ℕ → ℕ → SockState → SockState
unfolding note_connection find_msghdr_buf
kprobe_tcp_sendmsg kernel task sk msg size s =
    if task.pid_tgid == 0 || size == 0 || find_msghdr_buf kernel msg == 0
    then s
    else note_connection kernel task sk s

unfoldable pub kprobe_tcp_recvmsg : Kernel → Task → ℕ → ℕ → SockState → SockState
unfolding update find_msghdr_buf
kprobe_tcp_recvmsg kernel task sk msg s = if task.pid_tgid == 0 then s else record s {
  active_recv_args =
      update s.active_recv_args task.pid_tgid
        (record { sock_ptr = sk; iovec_ptr = find_msghdr_buf kernel msg });
}

-- Is the `int` above 0?
unfoldable pub is_positive : ℕ → Bool
is_positive n = not (neg32 n || n == 0)

unfoldable pub forget_recv_args : Task → SockState → SockState
unfolding delete
forget_recv_args task s = record s { active_recv_args = delete s.active_recv_args task.pid_tgid }

-- `copied_len` is the bit pattern of the result.
unfoldable pub kretprobe_tcp_recvmsg : Kernel → Task → ℕ → SockState → SockState
unfolding lookup forget_recv_args is_positive note_connection
kretprobe_tcp_recvmsg kernel task copied_len s =
    let args = lookup s.active_recv_args task.pid_tgid in
    let s' = forget_recv_args task s in
    if task.pid_tgid == 0 then s else elim args [
      | none ↦ s'
      | some a ↦ if is_positive copied_len then note_connection kernel task a.sock_ptr s' else s'
    ]

unfoldable pub forget_connection_info : ConnectionInfo → SockState → SockState
unfolding delete
forget_connection_info conn s = record s {
  filtered_connections = delete s.filtered_connections conn;
  grpc_connections = delete s.grpc_connections conn;
}

unfoldable pub kprobe_tcp_close : Kernel → Task → ℕ → SockState → SockState
unfolding parse_sock_info forget_recv_args forget_connection_info
kprobe_tcp_close kernel task sk s =
    if task.pid_tgid == 0 then s else elim (parse_sock_info kernel sk) [
      | none ↦ forget_recv_args task s
      | some conn ↦ forget_connection_info conn (forget_recv_args task s)
    ]
