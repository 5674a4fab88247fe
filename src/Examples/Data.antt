-- ===== src/Examples/Data.antt =====
-- Packets, tuples and states that the examples use.
use Prim.Native.String.{String}
use erda_agent.Base.{ℕ, codes, List, [], ◌∷◌, ◌++◌, replicate}
use erda_agent.Maps.{empty}
use erda_agent.Packet.{ConnTuple, SkbInfo, zero_tuple, eth_p_ip, conn_type_tcp}
use erda_agent.Events.{initial_batches}
use erda_agent.Kafka.Types.{
  KafkaHeader, Transaction, ResponseContext, zero_info, zero_transaction, zero_response,
  partition_start,
}
use erda_agent.Kafka.Response.{Env, State}

-- A Fetch of version 0 with the client id `c` and the topic `ab`.
abbrev pub fetch_bytes : List ℕ
fetch_bytes =
    0
    ∷ 0
    ∷ 0
    ∷ 33
    ∷ 0
    ∷ 1
    ∷ 0
    ∷ 0
    ∷ 0
    ∷ 0
    ∷ 0
    ∷ 7
    ∷ 0
    ∷ 1
    ∷ 99
    ∷ (replicate 12 0 ++ (0 ∷ 0 ∷ 0 ∷ 1 ∷ 0 ∷ 2 ∷ 97 ∷ 98 ∷ []))

abbrev pub fetch_header : KafkaHeader
fetch_header = record {
  message_size = 33;
  api_key = 1;
  api_version = 0;
  correlation_id = 7;
  client_id_size = 1;
}

abbrev pub fetch_transaction : Transaction
fetch_transaction = record {
  request_started = 0;
  records_count = 0;
  request_api_key = 1;
  request_api_version = 0;
  topic_name_size = 2;
  topic_name = 97 ∷ 98 ∷ replicate 78 0;
}

-- An Ethernet frame with an IPv4 and a TCP header and four bytes of payload, with the given flags.
abbrev pub frame : ℕ → List ℕ
frame flags =
    replicate 12 0
    ++ (8
        ∷ 0
        ∷ 69
        ∷ 0
        ∷ 0
        ∷ 44
        ∷ 0
        ∷ 0
        ∷ 0
        ∷ 0
        ∷ 64
        ∷ 6
        ∷ 0
        ∷ 0
        ∷ 10
        ∷ 0
        ∷ 0
        ∷ 1
        ∷ 10
        ∷ 0
        ∷ 0
        ∷ 2
        ∷ 35
        ∷ 132
        ∷ 195
        ∷ 80
        ∷ 0
        ∷ 0
        ∷ 0
        ∷ 100
        ∷ 0
        ∷ 0
        ∷ 0
        ∷ 0
        ∷ 80
        ∷ flags
        ∷ (replicate 6 0 ++ (0 ∷ 0 ∷ 0 ∷ 9 ∷ [])))

-- What the headers of the frame say.
abbrev pub frame_tuple : ConnTuple
frame_tuple = record zero_tuple {
  saddr_l = 16777226;
  daddr_l = 33554442;
  sport = 9092;
  dport = 50000;
  l3_proto = eth_p_ip;
  metadata = conn_type_tcp;
}

abbrev pub frame_info : ℕ → SkbInfo
frame_info flags = record { data_off = 54; data_end = 58; tcp_seq = 100; tcp_flags = flags }

abbrev pub env : Env
env = record {
  ktime = λ n. n;
  ports = record { ephemeral_range_begin = 32768; ephemeral_range_end = 60999 };
  layout = record { batch_size = 14; value_size = 144 };
}

abbrev pub empty_state : State
empty_state = record {
  kafka = zero_info;
  kafka_in_flight = empty 4096;
  kafka_response = empty 4096;
  kafka_event = empty 4096;
  batches = initial_batches;
  clock_reads = 0;
}

-- A response of version 4 that waits for the packet 100.
abbrev pub waiting_response : ResponseContext
waiting_response = record zero_response {
  state = partition_start;
  expected_tcp_seq = 100;
  transaction = record zero_transaction { request_api_version = 4 };
}

abbrev pub waiting_state : State
waiting_state = record empty_state {
  kafka_response = record { max_entries = 4096; entries = (frame_tuple, waiting_response) ∷ [] };
}

-- A TCP packet from one host to another, numbered, whose ports have the same numbers.
abbrev pub packet_of : ℕ → ℕ → String → List ℕ
packet_of src dst payload =
    replicate 12 0
    ++ (8
        ∷ 0
        ∷ 69
        ∷ (replicate 8 0
            ++ (6
                ∷ 0
                ∷ 0
                ∷ 10
                ∷ 0
                ∷ 0
                ∷ src
                ∷ 10
                ∷ 0
                ∷ 0
                ∷ dst
                ∷ 0
                ∷ src
                ∷ 0
                ∷ dst
                ∷ (replicate 8 0 ++ (80 ∷ (replicate 7 0 ++ codes payload))))))

abbrev pub request_tuple : ConnTuple
request_tuple = record zero_tuple {
  saddr_l = 16777226;
  daddr_l = 33554442;
  sport = 1;
  dport = 2;
  l3_proto = eth_p_ip;
  metadata = conn_type_tcp;
}
