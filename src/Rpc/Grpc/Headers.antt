-- ===== src/Rpc/Grpc/Headers.antt =====
-- The scan of a frame's headers (ebpf/include/protocol.h) on headers that are written out.
use erda_agent.Base.{ℕ, ◌+◌, ◌<◌, ◌≢◌, List, [], ◌∷◌, ◌++◌, ◌==◌, if◌then◌else◌, length}
use erda_agent.Rpc.Types.{PackagePhase, p_request, p_response}
use erda_agent.Rpc.Grpc.{http2_path_header_idx, http2_status_header_idx}

-- A header field as a literal with incremental indexing, whose name is in the table.
pub record Field : Type 0 where
  pub name : ℕ
  pub value : List ℕ

abbrev pub encode : Field → List ℕ
encode f = (64 + f.name) ∷ length f.value ∷ f.value

unfoldable pub encode_all : List Field → List ℕ
encode_all [] = []
encode_all (f ∷ fs) = encode f ++ encode_all fs

-- A field that the scan goes on behind: neither `:method` nor `content-type`.
pub record IsPassed (f : Field) : Type 0 where
  pub indexed : (0 < f.name) × (f.name < 64)
  pub no_method : (f.name ≢ 2) × (f.name ≢ 3)
  pub no_content_type : f.name ≢ 31
  pub short : length f.value < 128

-- A package's phase is decided by the last `:path` or `:status`.
unfoldable pub phase_after : List Field → PackagePhase → PackagePhase
phase_after [] phase = phase
phase_after (f ∷ fs) phase = phase_after fs (
    if f.name == http2_path_header_idx
    then p_request
    else if f.name == http2_status_header_idx
    then p_response
    else phase)
