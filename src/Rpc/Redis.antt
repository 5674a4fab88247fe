-- ===== src/Rpc/Redis.antt =====
-- The test for Redis: ebpf/include/redis.h. `buf` is the memory from the pointer on.
pub mod Reply
use erda_agent.Base.{
  ℕ, zero, suc, ◌+◌, ◌-◌, List, [], ◌∷◌, ◌++◌, Bool, true, false, ◌&&◌, ◌||◌, ltb, leb, ◌==◌,
  if◌then◌else◌, take, set, splice, codes, starts_with,
}
use erda_agent.Rpc.Types.{RpcPackage, p_request, p_response, classification_max_buffer, byte_at}

-- The loop of `check_integer_and_crlf`, on the rounds that are left: it stops at a carriage return,
-- and the result is whether a line feed follows.
unfoldable pub find_crlf : ℕ → List ℕ → ℕ → Bool
find_crlf zero buf i = false
find_crlf (suc n) buf i =
    let rest = find_crlf n buf (i + 1) in
    if byte_at buf i == b'\r' then byte_at buf (i + 1) == b'\n' else rest

unfoldable pub check_integer_and_crlf : List ℕ → ℕ → RpcPackage → Bool × RpcPackage
unfolding find_crlf
check_integer_and_crlf buf start pkg =
    if find_crlf (classification_max_buffer - start) buf start
    then (
      true,
      record pkg {
        phase = p_request;
        path = splice 0 (take classification_max_buffer buf) pkg.path;
      },
    )
    else (false, pkg)

unfoldable pub is_supported : ℕ → Bool
is_supported c =
    (leb b'A' c && leb c b'Z')
    || (leb b'a' c && leb c b'z')
    || c == b'.'
    || c == b' '
    || c == b'-'
    || c == b'_'
    || (leb b'0' c && leb c b'9')

-- The loop of `check_supported_ascii_and_crlf`.
unfoldable pub supported_until_crlf : ℕ → List ℕ → ℕ → Bool
unfolding is_supported
supported_until_crlf zero buf i = false
supported_until_crlf (suc n) buf i =
    let rest = supported_until_crlf n buf (i + 1) in
    if byte_at buf i == b'\r'
    then byte_at buf (i + 1) == b'\n'
    else if is_supported (byte_at buf i)
    then rest
    else false

unfoldable pub check_supported_ascii_and_crlf : List ℕ → ℕ → RpcPackage → Bool × RpcPackage
unfolding supported_until_crlf
check_supported_ascii_and_crlf buf start pkg =
    if supported_until_crlf (classification_max_buffer - start) buf start
    then (true, record pkg { phase = p_response; status = set pkg.status 0 b'O' })
    else (false, pkg)

unfoldable pub check_err_prefix : List ℕ → RpcPackage → Bool × RpcPackage
check_err_prefix buf pkg =
    if starts_with (codes "-ERR ") buf || starts_with (codes "-WRONGTYPE ") buf
    then (true, record pkg { status = set pkg.status 0 b'E'; phase = p_response })
    else (false, pkg)

unfoldable pub is_redis : List ℕ → ℕ → RpcPackage → Bool × RpcPackage
unfolding check_integer_and_crlf check_supported_ascii_and_crlf check_err_prefix
is_redis buf buf_size pkg =
    if ltb buf_size 3
    then (false, pkg)
    else if byte_at buf 0 == b'*'
    then check_integer_and_crlf buf 1 pkg
    else if byte_at buf 0 == b'+' || byte_at buf 0 == b'$'
    then check_supported_ascii_and_crlf buf 1 pkg
    else if byte_at buf 0 == b'-'
    then check_err_prefix buf pkg
    else (false, pkg)
