-- ===== src/Examples/Grpc.antt =====
-- The headers of an HTTP/2 frame through the scan for gRPC.
use erda_agent.Base.{ℕ, List, [], ◌∷◌, ◌++◌, codes}
use erda_agent.Rpc.Grpc.Headers.{Field}
use erda_agent.Rpc.Grpc.{grpc_encoded_content_type}

-- A path and an authority, then the content type of gRPC with a suffix.
abbrev path_and_authority : List Field
path_and_authority =
    record { name = 5; value = codes "/a" } ∷ record { name = 1; value = codes "host" } ∷ []

abbrev header_bytes : List ℕ
header_bytes =
    69
    ∷ 2
    ∷ b'/'
    ∷ b'a'
    ∷ 65
    ∷ 4
    ∷ b'h'
    ∷ b'o'
    ∷ b's'
    ∷ b't'
    ∷ 95
    ∷ 12
    ∷ (grpc_encoded_content_type ++ (1 ∷ []))
