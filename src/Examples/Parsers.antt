-- ===== src/Examples/Parsers.antt =====
-- The two loops of the response parser.
use erda_agent.Base.{ℕ, ◌≡◌, refl, List, [], ◌∷◌, ◌++◌, inl, replicate, arith}
use erda_agent.Packet.Bytes.{of_bytes, of_bytes-Reads}
use erda_agent.Kafka.Types.{
  ResponseContext, zero_response, zero_transaction, ret_done, record_batch_start, record_batch_end,
  partition_start, zero_info,
}
use erda_agent.Kafka.Batches
use erda_agent.Kafka.Batches.{record_batches_loop, zero_array}
use erda_agent.Kafka.Batches.Bounded.{StaysBounded, bytes_after}
use erda_agent.Kafka.Batches.Count.{record_batches_loop-StaysBounded}
use erda_agent.Kafka.Batches.Parse.{size, records, record_batches_loop-counts}
use erda_agent.Kafka.Partitions
use erda_agent.Kafka.Partitions.{Parser, partition_loop}
use erda_agent.Kafka.Partitions.Extends.{Extends}
use erda_agent.Kafka.Partitions.Bounds.{partition_loop-Extends}

-- One batch with a record.
abbrev batch_bytes : List ℕ
batch_bytes =
    replicate 8 0
    ++ (0 ∷ 0 ∷ 0 ∷ 50 ∷ 0 ∷ 0 ∷ 0 ∷ 0 ∷ 2 ∷ (replicate 40 0 ++ (0 ∷ 0 ∷ 0 ∷ 1 ∷ 0 ∷ [])))

abbrev batch_call : erda_agent.Kafka.Batches.Call
batch_call = record {
  skb = of_bytes batch_bytes;
  data_end = 62;
  orig_offset = 0;
  arrays = record { num_bytes = 62; offset = 0 } ∷ replicate 49 zero_array;
}

abbrev batch_response : ResponseContext
batch_response = record zero_response {
  state = record_batch_start;
  record_batches_num_bytes = 62;
  record_batches_arrays_count = 1;
}

record_batches_loop-StaysBounded_example :
    StaysBounded batch_call 62 (record_batches_loop batch_call batch_response)
unfolding bytes_after
record_batches_loop-StaysBounded_example =
    record_batches_loop-StaysBounded batch_call 62 batch_response (omega arith)
      (record { counted = omega arith; current = omega arith; sized = inl refl })

record_batches_loop-counts_example : record_batches_loop batch_call batch_response ≡ (
  ret_done,
  record batch_response {
    state = record_batch_end;
    record_batches_num_bytes = 0;
    record_batch_length = 0;
    record_batches_arrays_idx = 1;
    carry_over_offset = 62;
    transaction = record zero_transaction { records_count = 1 };
  },
)
unfolding size records
record_batches_loop-counts_example =
    record_batches_loop-counts batch_call batch_bytes batch_response
      (record { length = 50; records = 1 }) [] (of_bytes-Reads batch_bytes) (omega arith)
      (omega arith)
      (
        record {
          length_at = refl;
          magic_at = refl;
          records_at = refl;
          header_fits = omega arith;
          has_records = omega arith;
          few_records = omega arith;
        },
        tt,
      )
      refl refl refl (omega arith) (omega arith) (omega arith) (omega arith) (omega arith)

-- One partition of version 0 with a block of five bytes.
abbrev partition_bytes : List ℕ
partition_bytes = replicate 14 0 ++ (0 ∷ 0 ∷ 0 ∷ 5 ∷ replicate 5 0)

abbrev partition_call : erda_agent.Kafka.Partitions.Call
partition_call = record {
  skb = of_bytes partition_bytes;
  data_end = 23;
  orig_offset = 0;
  api_version = 0;
}

abbrev partition_parser : Parser
partition_parser = record {
  response = record zero_response { state = partition_start; partitions_count = 1 };
  arrays = zero_info.record_batches_arrays;
}

partition_loop-Extends_example :
    Extends partition_parser (partition_loop partition_call partition_parser).1
partition_loop-Extends_example =
    partition_loop-Extends partition_call partition_parser refl (omega arith)

-- The block is noted, behind its size, and the partition is the last one.
partition_is_noted : (partition_loop partition_call partition_parser).0 ≡ ret_done
unfolding partition_loop of_bytes
partition_is_noted = refl
