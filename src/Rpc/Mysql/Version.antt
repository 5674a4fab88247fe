-- ===== src/Rpc/Mysql/Version.antt =====
-- Which server versions the test for MySQL takes.
use erda_agent.Base.{
  ℕ, ◌+◌, ◌^◌, ◌<◌, ◌≤◌, ◌≡◌, ◌↔◌, ◌⊎◌, refl, subst, inl, inr, List, true, false, ◌&&◌, leb, ◌==◌,
  if◌then◌else◌, u32, arith,
}
use erda_agent.Rpc.Types.{byte_at}
use erda_agent.Rpc.Mysql.{is_digit, version_rounds, is_version_component_helper, is_version}

-- From the offset on, one or two digits and the delimiter stand within the size; n bytes in all.
abbrev pub IsComponent : List ℕ → ℕ → ℕ → ℕ → ℕ → Type 0
IsComponent buf offset size delimiter n =
    ((n ≡ 2)
      × (is_digit (byte_at buf (offset + 0)) ≡ true)
      × (byte_at buf (offset + 1) ≡ delimiter)
      × (offset + 2 ≤ size))
    ⊎ ((n ≡ 3)
        × (is_digit (byte_at buf (offset + 0)) ≡ true)
        × (is_digit (byte_at buf (offset + 1)) ≡ true)
        × (byte_at buf (offset + 2) ≡ delimiter)
        × (offset + 3 ≤ size))

rounds_lem :
    (c0 c1 c2 d offset size n : ℕ)
    → offset + 3 < 2 ^ 32
    → is_digit d ≡ false
    → (0 < n)
    → let r2 : ℕ =
        (if leb size (u32 (offset + 2))
          then 0
          else if is_digit c2
          then 0
          else if c2 == d && true
          then 3
          else 0) in
      let r1 : ℕ =
        (if leb size (u32 (offset + 1))
          then 0
          else if is_digit c1
          then r2
          else if c1 == d && true
          then 2
          else 0) in
      let r0 : ℕ =
        (if leb size (u32 (offset + 0))
          then 0
          else if is_digit c0
          then r1
          else if c0 == d && false
          then 1
          else 0) in
      (r0 ≡ n) ↔ (
        ((n ≡ 2) × (is_digit c0 ≡ true) × (c1 ≡ d) × (offset + 2 ≤ size))
        ⊎ ((n ≡ 3) × (is_digit c0 ≡ true) × (is_digit c1 ≡ true) × (c2 ≡ d) × (offset + 3 ≤ size)))
rounds_lem c0 c1 c2 d offset size n small mark positive = ground arith

-- A component's length is positive exactly if there is a component of this length.
pub is_version_component_helper_iff :
    (buf : List ℕ) (offset size delimiter n : ℕ)
    → offset + 3 < 2 ^ 32
    → is_digit delimiter ≡ false
    → 0 < n
    → (is_version_component_helper buf offset size delimiter ≡ n)
      ↔ IsComponent buf offset size delimiter n
unfolding is_version_component_helper version_rounds
is_version_component_helper_iff buf offset size delimiter n small mark positive =
    rounds_lem (byte_at buf (offset + 0)) (byte_at buf (offset + 1)) (byte_at buf (offset + 2))
      delimiter offset size n small mark positive

component_size :
    (buf : List ℕ) (offset size delimiter n : ℕ)
    → IsComponent buf offset size delimiter n
    → (2 ≤ n) × (n ≤ 3)
component_size buf offset size delimiter n (inl c) = omega (arith, c.0)
component_size buf offset size delimiter n (inr c) = omega (arith, c.0)

-- Three components one behind the other.
abbrev pub IsVersion : List ℕ → ℕ → Type 0
IsVersion buf size =
    (a : ℕ) × (b : ℕ) × (c : ℕ) × IsComponent buf 0 size b'.' a
    × IsComponent buf a size b'.' b
    × IsComponent buf (a + b) size 0 c

is_version-IsVersion : (buf : List ℕ) (size : ℕ) → is_version buf size ≡ true → IsVersion buf size
unfolding is_version
is_version-IsVersion buf size e =
    let a = is_version_component_helper buf 0 size b'.' in
    let b = is_version_component_helper buf a size b'.' in
    let c = is_version_component_helper buf (u32 (a + b)) size 0 in
    let pa : 0 < a = ground (arith, e) in
    let pb : 0 < b = ground (arith, e) in
    let pc : 0 < c = ground (arith, e) in
    let ca = (is_version_component_helper_iff buf 0 size b'.' a (omega arith) refl pa).0 refl in
    let sa = component_size buf 0 size b'.' a ca in
    let cb =
      (is_version_component_helper_iff buf a size b'.' b (omega (arith, sa.1)) refl pb).0 refl in
    let sb = component_size buf a size b'.' b cb in
    let w : u32 (a + b) ≡ a + b = omega (arith, sa.1, sb.1) in
    let cc' =
      (is_version_component_helper_iff buf (u32 (a + b)) size 0 c (omega (arith, sa.1, sb.1)) refl
          pc).0
        refl in
    (a, b, c, ca, cb, subst (λ o. IsComponent buf o size 0 c) w cc')

IsVersion-is_version :
    (buf : List ℕ) (size : ℕ) → 5 ≤ size → IsVersion buf size → is_version buf size ≡ true
unfolding is_version
IsVersion-is_version buf size long (a, b, c, ca, cb, cc') =
    let sa = component_size buf 0 size b'.' a ca in
    let sb = component_size buf a size b'.' b cb in
    let sc = component_size buf (a + b) size 0 c cc' in
    let w : u32 (a + b) ≡ a + b = omega (arith, sa.1, sb.1) in
    let ea =
      (is_version_component_helper_iff buf 0 size b'.' a (omega arith) refl (omega (arith, sa.0))).1
        ca in
    let eb =
      (is_version_component_helper_iff buf a size b'.' b (omega (arith, sa.1)) refl
          (omega (arith, sb.0))).1
        cb in
    let ec =
      (is_version_component_helper_iff buf (a + b) size 0 c (omega (arith, sa.1, sb.1)) refl
          (omega (arith, sc.0))).1
        cc' in
    rw (ea, eb, w, ec) (ground (arith, sa.0, sb.0, sc.0))

-- A buffer of at least five bytes begins with a server's version, for the test for MySQL, exactly if
-- three components stand one behind the other within its size: each of one or two digits, the first
-- two with a dot behind, the third with a zero byte.
pub is_version_iff :
    (buf : List ℕ) (size : ℕ) → 5 ≤ size → (is_version buf size ≡ true) ↔ IsVersion buf size
is_version_iff buf size long = (is_version-IsVersion buf size, IsVersion-is_version buf size long)
