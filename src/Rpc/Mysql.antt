-- ===== src/Rpc/Mysql.antt =====
-- The test for MySQL: ebpf/include/protocol.h, `is_version_component_helper` to `is_mysql_catalog`
-- and `is_mysql`. `buf` is the memory from the pointer on.
pub mod Version
use erda_agent.Base.{
  ℕ, zero, suc, ◌+◌, ◌-◌, List, Bool, true, false, ◌&&◌, ◌||◌, ltb, leb, ◌==◌, if◌then◌else◌, u32,
  sub32, bswap16, le, take, drop, slice, map, codes, starts_with,
}
use erda_agent.Rpc.Types.{RpcPackage, p_request, p_response, max_http2_path_content_length, byte_at}

abbrev pub is_digit : ℕ → Bool
is_digit c = leb b'0' c && leb c b'9'

-- The loop of `is_version_component_helper`, on the rounds that are left.
unfoldable pub version_rounds : ℕ → ℕ → List ℕ → ℕ → ℕ → ℕ → ℕ
version_rounds zero i buf offset buf_size delimiter = 0
version_rounds (suc n) i buf offset buf_size delimiter =
    let rest = version_rounds n (i + 1) buf offset buf_size delimiter in
    let current_char = byte_at buf (offset + i) in
    if leb buf_size (u32 (offset + i))
    then 0
    else if is_digit current_char
    then rest
    else if current_char == delimiter && ltb 0 i
    then i + 1
    else 0

unfoldable pub is_version_component_helper : List ℕ → ℕ → ℕ → ℕ → ℕ
unfolding version_rounds
is_version_component_helper buf offset buf_size delimiter =
    version_rounds 3 0 buf offset buf_size delimiter

unfoldable pub is_version : List ℕ → ℕ → Bool
unfolding is_version_component_helper
is_version buf buf_size =
    let major = is_version_component_helper buf 0 buf_size b'.' in
    let minor = is_version_component_helper buf major buf_size b'.' in
    let bugfix = is_version_component_helper buf (u32 (major + minor)) buf_size 0 in
    if ltb buf_size 5 || major == 0 || minor == 0 then false else ltb 0 bugfix

-- One byte of the query, in upper case.
unfoldable pub to_upper : ℕ → ℕ
to_upper c = if leb b'a' c && leb c b'z' then c - b'a' + b'A' else c

unfoldable pub check_commands : List ℕ → Bool
check_commands tmp =
    starts_with (codes "ALTER") tmp
    || starts_with (codes "CREATE") tmp
    || starts_with (codes "DELETE") tmp
    || starts_with (codes "DROP") tmp
    || starts_with (codes "INSERT") tmp
    || starts_with (codes "SELECT") tmp
    || starts_with (codes "UPDATE") tmp
    || starts_with (codes "SHOW") tmp

unfoldable pub is_sql_command : List ℕ → RpcPackage → Bool × RpcPackage
unfolding to_upper check_commands
is_sql_command buf pkg =
    if check_commands (map to_upper (take 6 buf))
    then (true, record pkg { path = take max_http2_path_content_length buf; phase = p_request })
    else (false, pkg)

unfoldable pub is_mysql_err_response : List ℕ → RpcPackage → Bool × RpcPackage
is_mysql_err_response buf pkg =
    let err_code = le (slice 0 4 buf) in
    if ltb 0 err_code
    then (
      true,
      record pkg {
        phase = p_response;
        mysql_status = bswap16 err_code;
        mysql_msg = slice 8 10 buf;
      },
    )
    else (false, pkg)

unfoldable pub is_mysql_catalog : List ℕ → RpcPackage → Bool × RpcPackage
is_mysql_catalog buf pkg =
    if byte_at buf 5 == b'd' && byte_at buf 6 == b'e' && byte_at buf 7 == b'f'
    then (true, record pkg { phase = p_response; mysql_status = 200 })
    else (false, pkg)

-- The case `MYSQL_OK00_RESPONSE`; `body` is what follows the header.
unfoldable pub is_mysql_ok : List ℕ → RpcPackage → Bool × RpcPackage
is_mysql_ok body pkg =
    if byte_at body 2 == 2
    then (true, record pkg { phase = p_response; mysql_status = 200 })
    else (false, pkg)

-- The switch on the command.
unfoldable pub mysql_command : ℕ → List ℕ → ℕ → RpcPackage → Bool × RpcPackage
unfolding is_sql_command is_mysql_ok is_mysql_err_response is_version is_mysql_catalog
mysql_command command_type body body_size pkg =
    if command_type == 0x3 || command_type == 0x16
    then is_sql_command body pkg
    else if command_type == 0x0
    then is_mysql_ok body pkg
    else if command_type == 0xff
    then is_mysql_err_response body pkg
    else if command_type == 0xa || command_type == 0x9
    then (is_version body body_size, pkg)
    else is_mysql_catalog body pkg

-- The header is packed: three bytes of length, the sequence number and the command.
unfoldable pub is_mysql : List ℕ → ℕ → RpcPackage → Bool × RpcPackage
unfolding mysql_command
is_mysql buf buf_size pkg =
    if ltb buf_size 5 || le (slice 0 3 buf) == 0
    then (false, pkg)
    else mysql_command (byte_at buf 4) (drop 5 buf) (sub32 buf_size 5) pkg
