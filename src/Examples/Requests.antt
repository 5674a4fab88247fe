-- ===== src/Examples/Requests.antt =====
-- Requests, and the map of those in flight.
use erda_agent.Base.{
  ℕ, ◌<◌, ◌≤◌, ◌≡◌, ◌↔◌, refl, [], ◌∷◌, some, true, false, ◌&&◌, ◌||◌, get_or, slice, arith, nat_eq,
}
use erda_agent.Maps.{lookup}
use erda_agent.Packet.Bytes.{of_bytes}
use erda_agent.Packet.Tuple.{flip_tuple}
use erda_agent.Kafka.Types.{KafkaHeader, zero_transaction}
use erda_agent.Kafka.Request.{check_string, is_topic_char, is_printable, header_of}
use erda_agent.Kafka.Request.Process.{accepted, parse_request, check_string_for_parsing}
use erda_agent.Kafka.Request.Process.Accepts.{
  check_string_iff, check_string_for_parsing-eq-check_string, parse_request-IsRequest, IsRequest,
}
use erda_agent.Kafka.Response.Program.{find_request, record_request}
use erda_agent.Kafka.Response.Program.Pairing.{
  find_request-record_request, find_request-mixes_connections,
}
use erda_agent.Examples.Data.{
  fetch_bytes, fetch_header, fetch_transaction, frame_tuple, frame, env, empty_state,
}

check_string_iff_example : (check_string 48 0 2 false (97 ∷ 33 ∷ []) ≡ true) ↔ (
    (i : ℕ)
    → 0 ≤ i
    → i < 48
    → i < 2
    → (is_topic_char (get_or (97 ∷ 33 ∷ []) i 0)
        || (false && is_printable (get_or (97 ∷ 33 ∷ []) i 0)))
      ≡ true)
check_string_iff_example = check_string_iff 48 0 2 false (97 ∷ 33 ∷ [])

check_string_for_parsing-eq-check_string_example :
    check_string_for_parsing 48 0 2 (97 ∷ 33 ∷ []) ≡ check_string 48 0 2 false (97 ∷ 33 ∷ [])
check_string_for_parsing-eq-check_string_example =
    check_string_for_parsing-eq-check_string 48 0 2 (97 ∷ 33 ∷ [])

-- The Fetch of the data is accepted.
accepts_fetch :
    parse_request (of_bytes fetch_bytes) 0 zero_transaction
    ≡ accepted fetch_header fetch_transaction
unfolding parse_request of_bytes
accepts_fetch = refl

parse_request-IsRequest_example :
    (fetch_header ≡ header_of (slice 0 14 fetch_bytes))
    × (fetch_transaction.request_started ≡ 0)
    × IsRequest fetch_header fetch_transaction
unfolding of_bytes
parse_request-IsRequest_example =
    parse_request-IsRequest (of_bytes fetch_bytes) 0 fetch_header zero_transaction fetch_transaction
      accepts_fetch

find_request-record_request_example :
    find_request
      (of_bytes (frame 24))
      (flip_tuple frame_tuple)
      50
      (record_request env frame_tuple fetch_header fetch_transaction empty_state)
    ≡ some (0, fetch_transaction, 8)
unfolding of_bytes lookup
find_request-record_request_example =
    find_request-record_request env frame_tuple fetch_header fetch_transaction empty_state
      (of_bytes (frame 24)) 50 refl refl (omega arith) (omega arith) (omega arith)

abbrev other_header : KafkaHeader
other_header = record fetch_header { correlation_id = 8 }

find_request-mixes_connections_example :
    let s1 = record_request env frame_tuple fetch_header fetch_transaction empty_state in
    let s2 =
      record_request env (record frame_tuple { sport = 9 }) other_header zero_transaction s1 in
    (s2 ≡ s1)
    × (find_request (of_bytes (frame 24)) (flip_tuple frame_tuple) 50 s2
        ≡ some (0, fetch_transaction, 8))
    × (find_request (of_bytes (frame 24)) (flip_tuple (record frame_tuple { sport = 9 })) 50 s2
        ≡ some (0, fetch_transaction, 8))
unfolding of_bytes lookup
find_request-mixes_connections_example =
    find_request-mixes_connections env frame_tuple (record frame_tuple { sport = 9 }) fetch_header
      other_header fetch_transaction zero_transaction empty_state (of_bytes (frame 24)) 50 refl refl
      refl refl refl (omega arith) (omega arith) (omega arith)
