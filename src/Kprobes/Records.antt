-- ===== src/Kprobes/Records.antt =====
-- What the two probes leave under the process.
use erda_agent.Base.{
  ℕ, subst, length-append, length-take, length-drop, zero, suc, ◌+◌, nat_eq, List, [], ◌∷◌, ◌++◌,
  All, take, drop, replicate, Bool-cases, if◌then◌else◌, ◌<◌, ◌≤◌, splice, ◌≡◌, ◌≢◌, ◌⊎◌, refl, ◌∙◌,
  inl, inr, Option, none, some, false, ◌==◌, length, u32, arith, Option-cases,
}
use erda_agent.Maps.{HashMap, lookup, update_noexist}
use erda_agent.Maps.Laws.{
  lookup-update_noexist_fresh, lookup-update_noexist_bound, lookup-write_self, lookup-write_other,
  lookup-update_noexist_other,
}
use erda_agent.Kprobes.{
  Current, OomStats, zero_oom, pid_of, read_kernel_str, get_cgroup_name, fill_oom,
  kprobe_oom_kill_process,
}

-- The entry of a process: what is there, or zeros.
abbrev pub entry_or {ℓ} : {V : Type ℓ} → Option V → V → V
entry_or none v = v
entry_or (some w) v = w

module _ {ℓ} {V : Type ℓ} where
  abbrev Fits : HashMap ℕ V → ℕ → Type ℓ
  Fits m k = (lookup m k ≢ none) ⊎ (length m.entries < m.max_entries)

  -- An update that keeps what is there, where there is an entry or room for one.
  noexist_entry :
      (m : HashMap ℕ V) (k : ℕ) (v : V)
      → Fits m k
      → lookup (update_noexist m k v) k ≡ some (entry_or (lookup m k) v)
  noexist_entry m k v fits = elim (Option-cases (lookup m k)) [
    | inr (w, e) ↦ rw (lookup-update_noexist_bound m k v w e, e) refl
    | inl e ↦ elim fits [
      | inl bound ↦ absurd (bound e)
      | inr room ↦ rw (lookup-update_noexist_fresh m k v e room, e) refl
    ]
  ]

-- The string in a buffer: the bytes up to the first NUL.
unfoldable pub c_string : List ℕ → List ℕ
c_string [] = []
c_string (x ∷ xs) = let rest = c_string xs in if x == 0 then [] else x ∷ rest

-- The bytes of a string, where there is one: none is 0.
abbrev pub HasNoNul : Option (List ℕ) → Type 0
HasNoNul none = Unit
HasNoNul (some name) = All (λ x. (x == 0) ≡ false) name

c_string-replicate : (n : ℕ) → c_string (replicate n 0) ≡ []
unfolding c_string
c_string-replicate zero = refl
c_string-replicate (suc n) = refl

c_string-append :
    (n : ℕ) (name rest : List ℕ)
    → All (λ x. (x == 0) ≡ false) name
    → c_string ((take n name ++ (0 ∷ [])) ++ rest) ≡ take n name
unfolding c_string
c_string-append zero name rest a = refl
c_string-append (suc n) [] rest a = refl
c_string-append (suc n) (x ∷ name) rest (e, a) = rw (c_string-append n name rest a, e) refl

splice-fits :
    (xs buf : List ℕ) → length buf ≡ 129 → length xs ≤ 129 → length (splice 0 xs buf) ≡ 129
splice-fits xs buf size h =
    omega
      (arith, length-append xs (drop (0 + length xs) buf), length-drop (0 + length xs) buf, size, h)

-- The name that an entry has after the probe, if it had this path: the cgroup's name, cut to 128
-- bytes; nothing, if that cannot be read; the old one, if there is no task.
abbrev pub name_after : Current → List ℕ → List ℕ
name_after c old =
    if c.cur_tsk == 0
    then c_string old
    else elim c.cgroup_name [ none ↦ [] | some name ↦ take 128 name ]

get_cgroup_name-name :
    (c : Current) (old : List ℕ)
    → HasNoNul c.cgroup_name
    → length old ≡ 129
    → (c_string (get_cgroup_name c old) ≡ name_after c old) × (length (get_cgroup_name c old) ≡ 129)
unfolding get_cgroup_name read_kernel_str
get_cgroup_name-name c old string size = elim (Bool-cases (c.cur_tsk == 0)) [
  | inl e ↦ rw (get_cgroup_name, e) (refl, size)
  | inr e ↦ elim (Option-cases c.cgroup_name) [
    | inl f ↦ rw (get_cgroup_name, e, f, size) (c_string-replicate 129, refl)
    | inr (name, f) ↦
        let a = subst HasNoNul f string in
        let written : List ℕ = take 128 name ++ (0 ∷ []) in
        let small : length written ≤ 129 =
          omega (arith, length-append (take 128 name) (0 ∷ []), length-take 128 name) in
        rw (get_cgroup_name, e, f, size)
          (
            c_string-append 128 name (drop (0 + length written) old) a,
            splice-fits written old size small,
          )
  ]
]

-- What the probe leaves in the entry of a process.
pub record IsNoted (c : Current) (old entry : OomStats) : Type 0 where
  pub same_pid : entry.pid ≡ pid_of c
  pub name_of_task : entry.fcomm ≡ c.comm
  pub same_cgroup : entry.cgroupid ≡ u32 c.cgroup_id
  pub path : c_string entry.cgroup_path ≡ name_after c old.cgroup_path
  pub path_size : length entry.cgroup_path ≡ 129

-- A process is chosen to be killed while a task runs, and the map has room or the task an entry: the
-- task's entry then has its number, its name and its cgroup's number. As a string, its path is the
-- cgroup's name, cut to 128 bytes; it is empty if the name cannot be read; it is the path that was
-- there before if there is no task. The entries of other tasks stay. The name has no NUL, and a path
-- that was there before has 129 bytes.
pub kprobe_oom_kill_process-IsNoted :
    (c : Current) (chosen other : ℕ) (m : HashMap ℕ OomStats)
    → chosen ≢ 0
    → (lookup m (pid_of c) ≢ none) ⊎ (length m.entries < m.max_entries)
    → HasNoNul c.cgroup_name
    → length (entry_or (lookup m (pid_of c)) zero_oom).cgroup_path ≡ 129
    → (pid_of c == other) ≡ false
    → let m' = kprobe_oom_kill_process c chosen m in
      ((entry : OomStats) × (lookup m' (pid_of c) ≡ some entry)
        × IsNoted c (entry_or (lookup m (pid_of c)) zero_oom) entry)
      × (lookup m' other ≡ lookup m other)
unfolding kprobe_oom_kill_process fill_oom
kprobe_oom_kill_process-IsNoted c chosen other m some_process fits string size apart =
    let k = pid_of c in
    let m' = update_noexist m k zero_oom in
    let old = entry_or (lookup m k) zero_oom in
    let there = noexist_entry m k zero_oom fits in
    let known : (chosen == 0) ≡ false = ground arith in
    let (name, size') = get_cgroup_name-name c old.cgroup_path string size in
    rw (kprobe_oom_kill_process, known, there)
      (
        (
          fill_oom c old,
          lookup-write_self m' k (fill_oom c old) old there,
          record {
            same_pid = refl;
            name_of_task = refl;
            same_cgroup = refl;
            path = name;
            path_size = size';
          },
        ),
        lookup-write_other m' k other (fill_oom c old) apart
            ∙ lookup-update_noexist_other m k other zero_oom apart,
      )
