-- ===== src/Examples/Numbers.antt =====
-- Numbers, buffers and tuples.
use erda_agent.Base.{
  ◌≡◌, ◌≢◌, ◌↔◌, refl, [], ◌∷◌, ◌++◌, true, false, be, replicate, arith, if◌then◌else◌,
}
use erda_agent.Packet.Bytes.{of_bytes, of_bytes-Reads}
use erda_agent.Packet.Tuple.{flip_tuple, normalize_tuple}
use erda_agent.Packet.Tuple.Laws.{normalize_tuple-canonical}
use erda_agent.Packet.Buffer.{read_into_buffer}
use erda_agent.Packet.Buffer.Laws.{read_into_buffer-eq-slice}
use erda_agent.Kafka.Types.{zero_response, ret_eop, ret_done, ret_err}
use erda_agent.Kafka.Reader.{read_varint, read_with_remainder}
use erda_agent.Kafka.Reader.Varint.{read_varint-accepts_overlong, read_varint-resumes}
use erda_agent.Kafka.Reader.Remainder.{read_with_remainder-split_iff}
use erda_agent.Examples.Data.{fetch_bytes, frame_tuple, env}

read_varint-accepts_overlong_example :
    (read_varint zero_response (of_bytes (128 ∷ 128 ∷ 129 ∷ [])) 0 3 false 2).result ≢ ret_err
read_varint-accepts_overlong_example =
    read_varint-accepts_overlong zero_response (of_bytes (128 ∷ 128 ∷ 129 ∷ [])) 0 3 false 2
      (omega arith)

read_varint-resumes_example :
    let r1 = read_varint zero_response (of_bytes (5 ∷ 133 ∷ [])) 1 2 true 2 in
    (r1.result ≡ ret_eop)
    × (read_varint r1.response (of_bytes (3 ∷ 9 ∷ [])) 0 2 true 2
        ≡ record { result = ret_done; response = zero_response; offset = 1; value = 388 })
read_varint-resumes_example =
    read_varint-resumes (of_bytes (5 ∷ 133 ∷ [])) (of_bytes (3 ∷ 9 ∷ [])) (5 ∷ 133 ∷ [])
      (3 ∷ 9 ∷ []) zero_response (133 ∷ []) (3 ∷ []) [] (9 ∷ []) 1 0 2 2 2 true
      (of_bytes-Reads (5 ∷ 133 ∷ [])) (of_bytes-Reads (3 ∷ 9 ∷ [])) refl refl refl refl
      (omega arith, refl, tt) refl (omega arith) (omega arith, refl) (omega arith) (omega arith)
      (omega arith) (omega arith)

read_with_remainder-split_iff_example :
    let r =
      read_with_remainder
        (record zero_response { remainder = 2 })
        (of_bytes (1 ∷ 44 ∷ 7 ∷ 7 ∷ []))
        0
        4
        true in
    (r.result ≡ ret_done)
    × (r.response ≡ zero_response)
    × (r.offset ≡ 2)
    × ((r.value ≡ 300) ↔ (be (0 ∷ 0 ∷ []) ≡ 0))
unfolding of_bytes
read_with_remainder-split_iff_example =
    read_with_remainder-split_iff (record zero_response { remainder = 2 })
      (of_bytes (1 ∷ 44 ∷ 7 ∷ 7 ∷ [])) 0 4 (0 ∷ 0 ∷ []) (1 ∷ 44 ∷ []) (7 ∷ 7 ∷ []) refl refl refl
      (omega arith) (omega arith) (omega arith) (omega arith)

normalize_tuple-canonical_example :
    let r = env.ports in
    let t = frame_tuple in
    ((normalize_tuple r (flip_tuple t)).0 ≡ (normalize_tuple r t).0)
    × ((normalize_tuple r (normalize_tuple r t).0).0 ≡ (normalize_tuple r t).0)
    × ((normalize_tuple r t).0 ≡ (if (normalize_tuple r t).1 then flip_tuple t else t))
normalize_tuple-canonical_example =
    normalize_tuple-canonical env.ports frame_tuple (λ e. absurd (omega (arith, e)))

read_into_buffer-eq-slice_example :
    read_into_buffer 16 (of_bytes fetch_bytes) 14 (replicate 16 1)
    ≡ (99 ∷ (replicate 12 0 ++ (0 ∷ 0 ∷ 0 ∷ [])))
read_into_buffer-eq-slice_example =
    read_into_buffer-eq-slice (of_bytes fetch_bytes) fetch_bytes 16 14 (replicate 16 1)
      (of_bytes-Reads fetch_bytes) refl (omega arith) (omega arith)
