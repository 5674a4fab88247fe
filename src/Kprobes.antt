-- ===== src/Kprobes.antt =====
-- The probes that note a process: ebpf/plugins/oomkillprocesser/main.c and
-- ebpf/plugins/kprobesysctl/main.c. The kernel's helpers are parameters: the current task, and the
-- string that `get_cgroup_name` reads.
pub mod Records
use erda_agent.Base.{
  ℕ, ◌/◌, ◌-◌, ◌^◌, List, [], ◌∷◌, ◌++◌, length, take, splice, Option, none, some, ◌==◌,
  if◌then◌else◌, u32, replicate, Eq, nat_eq,
}
use erda_agent.Maps.{HashMap, lookup, update, update_noexist, write}

-- `bpf_get_current_pid_tgid`, `bpf_get_current_comm` (16 bytes), `bpf_get_current_cgroup_id`,
-- `bpf_get_current_task`, and the bytes of the cgroup's name up to the NUL, where they can be read.
pub record Current : Type 0 where
  pub pid_tgid : ℕ
  pub comm : List ℕ
  pub cgroup_id : ℕ
  pub cur_tsk : ℕ
  pub cgroup_name : Option (List ℕ)

pub record OomStats : Type 0 where
  pub pid : ℕ
  pub fcomm : List ℕ
  pub cgroupid : ℕ
  pub cgroup_path : List ℕ

pub record SysctlStat : Type 0 where
  pub pid : ℕ
  pub cgroupid : ℕ
  pub poduid : List ℕ
  pub containerid : List ℕ

abbrev pub zero_oom : OomStats
zero_oom = record { pid = 0; fcomm = replicate 16 0; cgroupid = 0; cgroup_path = replicate 129 0 }

abbrev pub zero_stat : SysctlStat
zero_stat = record { pid = 0; cgroupid = 0; poduid = replicate 36 0; containerid = replicate 64 0 }

abbrev pub pid_of : Current → ℕ
pid_of c = u32 (c.pid_tgid / 2 ^ 32)

-- `bpf_probe_read_kernel_str` into a buffer: if the string cannot be read, the buffer is cleared;
-- otherwise the string and its NUL are written, the string cut to what fits.
unfoldable pub read_kernel_str : Option (List ℕ) → List ℕ → List ℕ
read_kernel_str none buf = replicate (length buf) 0
read_kernel_str (some name) buf = splice 0 (take (length buf - 1) name ++ (0 ∷ [])) buf

-- `get_cgroup_name`: the buffer afterwards. The caller does nothing more, whatever it returns.
unfoldable pub get_cgroup_name : Current → List ℕ → List ℕ
unfolding read_kernel_str
get_cgroup_name c buf = if c.cur_tsk == 0 then buf else read_kernel_str c.cgroup_name buf

-- The entry, when the probe is done with it.
unfoldable pub fill_oom : Current → OomStats → OomStats
unfolding get_cgroup_name
fill_oom c s = record {
  pid = pid_of c;
  fcomm = c.comm;
  cgroupid = u32 c.cgroup_id;
  cgroup_path = get_cgroup_name c s.cgroup_path;
}

-- `kprobe_oom_kill_process`; `chosen` is the pointer to the process that is to be killed.
unfoldable pub kprobe_oom_kill_process : Current → ℕ → HashMap ℕ OomStats → HashMap ℕ OomStats
unfolding update_noexist lookup update write fill_oom
kprobe_oom_kill_process c chosen oom_map =
    let m = update_noexist oom_map (pid_of c) zero_oom in
    if chosen == 0 then oom_map else elim (lookup m (pid_of c)) [
      | none ↦ update m (pid_of c) zero_oom
      | some s ↦ write m (pid_of c) (fill_oom c s)
    ]

-- `kprobe_sysctl_prog`
unfoldable pub kprobe_sysctl_prog : Current → HashMap ℕ SysctlStat → HashMap ℕ SysctlStat
unfolding update_noexist lookup update write
kprobe_sysctl_prog c sysctl_map =
    let m = update_noexist sysctl_map (pid_of c) zero_stat in
    elim (lookup m (pid_of c)) [
      | none ↦ update m (pid_of c) zero_stat
      | some s ↦ write m (pid_of c) (record s { pid = pid_of c; cgroupid = u32 c.cgroup_id })
    ]
