-- ===== src/Rpc/Redis/Reply.antt =====
-- Which replies the test for Redis takes.
use erda_agent.Base.{
  ℕ, zero, suc, ◌+◌, ◌<◌, ◌≤◌, ◌≡◌, ◌↔◌, ◌⊎◌, subst, inl, inr, List, true, false, ◌==◌, set, arith,
  Bool-cases,
}
use erda_agent.Rpc.Types.{RpcPackage, p_response, byte_at}
use erda_agent.Rpc.Redis.{
  is_supported, supported_until_crlf, check_supported_ascii_and_crlf, is_redis,
}

-- From the index on, k supported characters stand before a carriage return and a line feed.
pub record IsLine (buf : List ℕ) (i k : ℕ) : Type 0 where
  pub supported : (j : ℕ) → j < k → is_supported (byte_at buf (i + j)) ≡ true
  pub carriage_return : byte_at buf (i + k) ≡ b'\r'
  pub line_feed : byte_at buf (i + k + 1) ≡ b'\n'

-- A line of less than n characters.
abbrev pub HasLine : List ℕ → ℕ → ℕ → Type 0
HasLine buf i n = (k : ℕ) × (k < n) × IsLine buf i k

line_here :
    (n : ℕ) (buf : List ℕ) (i : ℕ)
    → byte_at buf i ≡ b'\r'
    → byte_at buf (i + 1) ≡ b'\n'
    → HasLine buf i (suc n)
line_here n buf i cr lf = (
  0,
  omega arith,
  record {
    supported = λ j h. absurd (omega arith);
    carriage_return = subst (λ x. byte_at buf x ≡ b'\r') (omega arith) cr;
    line_feed = subst (λ x. byte_at buf x ≡ b'\n') (omega arith) lf;
  },
)

line_further :
    (n : ℕ) (buf : List ℕ) (i : ℕ)
    → is_supported (byte_at buf i) ≡ true
    → HasLine buf (i + 1) n
    → HasLine buf i (suc n)
line_further n buf i ok (k, h, l) = (
  suc k,
  omega arith,
  record {
    supported = λ j h'. further j h';
    carriage_return = subst (λ x. byte_at buf x ≡ b'\r') (omega arith) l.carriage_return;
    line_feed = subst (λ x. byte_at buf x ≡ b'\n') (omega arith) l.line_feed;
  },
)
  where
    further : (j : ℕ) → j < suc k → is_supported (byte_at buf (i + j)) ≡ true
    further zero h' = subst (λ x. is_supported (byte_at buf x) ≡ true) (omega arith) ok
    further (suc j) h' =
        subst (λ x. is_supported (byte_at buf x) ≡ true) (omega arith) (l.supported j (omega arith))

-- The converse of the two.
line_first :
    (n : ℕ) (buf : List ℕ) (i : ℕ)
    → HasLine buf i (suc n)
    → ((byte_at buf i ≡ b'\r') × (byte_at buf (i + 1) ≡ b'\n'))
      ⊎ ((is_supported (byte_at buf i) ≡ true) × HasLine buf (i + 1) n)
line_first n buf i (zero, h, l) = inl (
  subst (λ x. byte_at buf x ≡ b'\r') (omega arith) l.carriage_return,
  subst (λ x. byte_at buf x ≡ b'\n') (omega arith) l.line_feed,
)
line_first n buf i (suc k, h, l) = inr (
  subst (λ x. is_supported (byte_at buf x) ≡ true) (omega arith) (l.supported 0 (omega arith)),
  (
    k,
    omega arith,
    record {
      supported = λ j h'.
          subst (λ x. is_supported (byte_at buf x) ≡ true) (omega arith)
            (l.supported (suc j) (omega arith));
      carriage_return = subst (λ x. byte_at buf x ≡ b'\r') (omega arith) l.carriage_return;
      line_feed = subst (λ x. byte_at buf x ≡ b'\n') (omega arith) l.line_feed;
    },
  ),
)

cr-unsupported : (c : ℕ) → is_supported c ≡ true → (c == b'\r') ≡ false
unfolding is_supported
cr-unsupported c h = ground arith

until_sound : (n : ℕ) (buf : List ℕ) (i : ℕ) → supported_until_crlf n buf i ≡ true → HasLine buf i n
unfolding supported_until_crlf
until_sound zero buf i h = ground arith
until_sound (suc n) buf i h = elim (Bool-cases (byte_at buf i == b'\r')) [
  | inl cr ↦
      let lf : byte_at buf (i + 1) ≡ b'\n' = ground arith in line_here n buf i (ground arith) lf
  | inr other ↦
      let ok : is_supported (byte_at buf i) ≡ true = ground arith in
      let rest : supported_until_crlf n buf (i + 1) ≡ true = ground arith in
      line_further n buf i ok (until_sound n buf (i + 1) rest)
]

until_complete :
    (n : ℕ) (buf : List ℕ) (i : ℕ) → HasLine buf i n → supported_until_crlf n buf i ≡ true
unfolding supported_until_crlf
until_complete zero buf i (k, h, l) = absurd (omega arith)
until_complete (suc n) buf i has = elim (line_first n buf i has) [
  | inl (cr, lf) ↦ ground arith
  | inr (ok, rest) ↦
      let ih = until_complete n buf (i + 1) rest in
      let other = cr-unsupported (byte_at buf i) ok in ground arith
]

-- Of buffers with at least three bytes that begin with `+` or `$`, the test for Redis takes exactly
-- those that go on with at most 22 supported characters (letters, digits, `.`, ` `, `-`, `_`), a
-- carriage return and a line feed; the package is then a response with the status `O`.
pub is_redis-IsLine :
    (buf : List ℕ) (buf_size : ℕ) (pkg : RpcPackage)
    → 3 ≤ buf_size
    → (byte_at buf 0 ≡ b'+') ⊎ (byte_at buf 0 ≡ b'$')
    → let result = is_redis buf buf_size pkg in
      ((result.0 ≡ true) ↔ HasLine buf 1 23)
      × (result.0 ≡ true
          → result.1 ≡ record pkg { phase = p_response; status = set pkg.status 0 b'O' })
unfolding is_redis check_supported_ascii_and_crlf
is_redis-IsLine buf buf_size pkg long first =
    let sound = until_sound 23 buf 1 in
    let complete = until_complete 23 buf 1 in
    elim (Bool-cases (supported_until_crlf 23 buf 1)) [
      | inl found ↦
          let has = sound found in
          ((λ e. has, λ has'. ground (arith, found)), λ e. ground (arith, found))
      | inr missing ↦ (
        (λ e. ground (arith, missing, e), λ has. ground (arith, missing, complete has)),
        λ e. ground (arith, missing, e),
      )
    ]
