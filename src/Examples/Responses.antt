-- ===== src/Examples/Responses.antt =====
-- Packets of a connection with a response.
use erda_agent.Base.{[], ◌∷◌, ◌≡◌, ◌≢◌, ◌⊎◌, refl, none, some, true, arith, nat_eq}
use erda_agent.Maps.{lookup}
use erda_agent.Packet.{read_conn_tuple_skb, zero_tuple, tuple_eq, sock_key_eq, tuple_beq}
use erda_agent.Packet.Bytes.{of_bytes}
use erda_agent.Packet.Tuple.{flip_tuple}
use erda_agent.Kafka.Types.{ResponseContext, partition_aborted_transactions, zero_transaction}
use erda_agent.Kafka.Response.{is_tcp_termination}
use erda_agent.Kafka.Response.Program.{socket_kafka_filter, kafka_process_response}
use erda_agent.Kafka.Response.Program.Reset.{socket_kafka_filter-forgets}
use erda_agent.Kafka.Response.Program.Order.{kafka_process_response-ignores_repeated}
use erda_agent.Events.{initial_batches, batch_flush}
use erda_agent.Kafka.Response.Program.Unbatched.{filter_packets, filter_packets-IsUnbatched}
use erda_agent.Examples.Data.{frame, frame_tuple, frame_info, env, waiting_response, waiting_state}

-- The headers of the frame.
frame_headers :
    read_conn_tuple_skb (of_bytes (frame 17)) zero_tuple ≡ some (frame_info 17, frame_tuple)
unfolding read_conn_tuple_skb of_bytes
frame_headers = refl

socket_kafka_filter-forgets_example :
    let s' = socket_kafka_filter env 33 (of_bytes (frame 17)) waiting_state in
    ((frame_tuple ≡ frame_tuple) ⊎ (frame_tuple ≡ flip_tuple frame_tuple)
      → lookup s'.kafka_response frame_tuple ≡ none)
    × (frame_tuple ≢ frame_tuple
        → frame_tuple ≢ flip_tuple frame_tuple
        → lookup s'.kafka_response frame_tuple ≡ lookup waiting_state.kafka_response frame_tuple)
    × (s'.kafka_in_flight ≡ waiting_state.kafka_in_flight)
    × (s'.kafka_event ≡ waiting_state.kafka_event)
    × (s'.batches ≡ waiting_state.batches)
    × (s'.kafka ≡ record (waiting_state.kafka) {
      event = record (waiting_state.kafka.event) {
        transaction = record zero_transaction {
          request_started = env.ktime waiting_state.clock_reads;
        };
      };
    })
unfolding is_tcp_termination
socket_kafka_filter-forgets_example =
    socket_kafka_filter-forgets env 33 (of_bytes (frame 17)) waiting_state (frame_info 17)
      frame_tuple frame_tuple frame_headers refl

data_headers :
    read_conn_tuple_skb (of_bytes (frame 24)) zero_tuple ≡ some (frame_info 24, frame_tuple)
unfolding read_conn_tuple_skb of_bytes
data_headers = refl

-- The payload is within the fields in front of the aborted transactions.
abbrev continued_response : ResponseContext
continued_response = record waiting_response {
  state = partition_aborted_transactions;
  carry_over_offset = 18;
  expected_tcp_seq = 104;
}

waits :
    lookup
      (kafka_process_response env 33 frame_tuple
        (of_bytes (frame 24))
        (frame_info 24)
        waiting_state).1.kafka_response
      frame_tuple
    ≡ some continued_response
unfolding kafka_process_response lookup read_conn_tuple_skb of_bytes tuple_beq
waits = refl

found : lookup waiting_state.kafka_response frame_tuple ≡ some waiting_response
unfolding lookup tuple_beq
found = refl

kafka_process_response-ignores_repeated_example :
    let s' =
      (kafka_process_response env 33 frame_tuple
        (of_bytes (frame 24))
        (frame_info 24)
        waiting_state).1 in
    kafka_process_response env 33 frame_tuple (of_bytes (frame 24)) (frame_info 24) s' ≡ (true, s')
kafka_process_response-ignores_repeated_example =
    kafka_process_response-ignores_repeated env env 33 33 frame_tuple (of_bytes (frame 24))
      (frame_info 24) waiting_state waiting_response continued_response data_headers refl found refl
      (omega arith) (omega arith) (omega arith) waits

filter_packets-IsUnbatched_example :
    let s' =
      filter_packets env
        ((33, of_bytes (frame 24)) ∷ (33, of_bytes (frame 17)) ∷ [])
        waiting_state in
    (s'.batches ≡ initial_batches) × (batch_flush (λ _. true) s'.batches ≡ (initial_batches, []))
filter_packets-IsUnbatched_example =
    filter_packets-IsUnbatched env ((33, of_bytes (frame 24)) ∷ (33, of_bytes (frame 17)) ∷ [])
      waiting_state (λ _. true) refl
