-- ===== src/Kafka/Batches/Sequence.antt =====
-- The batches loop leaves the sequence number that is expected.
use erda_agent.Base.{
  ℕ, zero, suc, ◌+◌, ◌-◌, ◌^◌, ◌≡◌, refl, ◌∙◌, Bool, true, false, u32, sub32, neg32, arith,
  Bool-cases, inl, inr,
}
use erda_agent.Packet.{Skb}
use erda_agent.Kafka.Types.{
  ResponseContext, ResponseState, ParseResult, response_parser_max_iterations, record_batch_start,
  record_batch_length, record_batch_magic, record_batch_records_count, record_batch_end,
  record_batches_array_end,
}
use erda_agent.Kafka.Reader.{read_with_remainder}
use erda_agent.Kafka.Batches.{
  Flow, returns, continues, Call, batches_array_end, batch_end, batch_records_count, batch_magic,
  batch_sized, batch_length, batch_start, dispatch, batches_rounds, record_batches_loop,
}

abbrev seq_of : Flow → ℕ
seq_of (returns result r) = r.expected_tcp_seq
seq_of (continues offset r) = r.expected_tcp_seq

read-seq :
    (response : ResponseContext) (skb : Skb) (offset data_end : ℕ) (first : Bool)
    → (read_with_remainder response skb offset data_end first).response.expected_tcp_seq
      ≡ response.expected_tcp_seq
unfolding read_with_remainder
read-seq response skb offset data_end first = ground arith

module _ (c : Call) where
  batches_array_end-seq :
      (offset : ℕ) (r : ResponseContext)
      → seq_of (batches_array_end c offset r) ≡ r.expected_tcp_seq
  unfolding batches_array_end
  batches_array_end-seq offset r = ground arith

  batch_end-seq :
      (offset : ℕ) (r : ResponseContext) → seq_of (batch_end c offset r) ≡ r.expected_tcp_seq
  unfolding batch_end
  batch_end-seq offset r = ground (
    arith,
    batches_array_end-seq offset (record r {
      record_batches_num_bytes =
          sub32 r.record_batches_num_bytes (u32 (r.record_batch_length + 12));
      record_batch_length = 0;
    }),
  )

  batch_records_count-seq :
      (first : Bool) (offset : ℕ) (r : ResponseContext)
      → seq_of (batch_records_count c first offset r) ≡ r.expected_tcp_seq
  unfolding batch_records_count
  batch_records_count-seq first offset r =
      let rd = read_with_remainder r c.skb offset c.data_end first in
      ground (
        arith,
        read-seq r c.skb offset c.data_end first,
        batch_end-seq (u32 (rd.offset + rd.response.record_batch_length + 2 ^ 32 - 49))
            (record rd.response {
              transaction = record (rd.response.transaction) {
                records_count = u32 (rd.response.transaction.records_count + rd.value);
              };
              state = record_batch_end;
            }),
      )

  batch_magic-seq :
      (first : Bool) (offset : ℕ) (r : ResponseContext)
      → seq_of (batch_magic c first offset r) ≡ r.expected_tcp_seq
  unfolding batch_magic
  batch_magic-seq first offset r = ground (
    arith,
    batch_records_count-seq first (u32 (offset + 41))
        (record r { state = record_batch_records_count }),
  )

  batch_sized-seq :
      (first : Bool) (offset : ℕ) (r : ResponseContext)
      → seq_of (batch_sized c first offset r) ≡ r.expected_tcp_seq
  unfolding batch_sized
  batch_sized-seq first offset r =
      ground
        (arith, batch_magic-seq first (u32 (offset + 4)) (record r { state = record_batch_magic }))

  batch_length-seq :
      (first : Bool) (offset : ℕ) (r : ResponseContext)
      → seq_of (batch_length c first offset r) ≡ r.expected_tcp_seq
  unfolding batch_length
  batch_length-seq first offset r =
      let rd = read_with_remainder r c.skb offset c.data_end first in
      ground (
        arith,
        read-seq r c.skb offset c.data_end first,
        batch_sized-seq first rd.offset (record rd.response { record_batch_length = rd.value }),
      )

  dispatch-seq :
      (state : ResponseState) (first : Bool) (offset : ℕ) (r : ResponseContext)
      → seq_of (dispatch state c first offset r) ≡ r.expected_tcp_seq
  unfolding dispatch batch_start
  dispatch-seq record_batch_start first offset r =
      batch_length-seq first (u32 (offset + 8)) (record r { state = record_batch_length })
  dispatch-seq record_batch_length first offset r = batch_length-seq first offset r
  dispatch-seq record_batch_magic first offset r = batch_magic-seq first offset r
  dispatch-seq record_batch_records_count first offset r = batch_records_count-seq first offset r
  dispatch-seq record_batch_end first offset r = batch_end-seq offset r
  dispatch-seq record_batches_array_end first offset r = batches_array_end-seq offset r
  dispatch-seq _ first offset r = refl

  next_round : ℕ → Flow → ParseResult × ResponseContext
  next_round rounds f = elim f [
    | returns result r ↦ (result, r)
    | continues offset r ↦ batches_rounds rounds c false offset r
  ]

  next_round-seq :
      (rounds : ℕ)
      → ((first : Bool) (offset : ℕ) (r : ResponseContext)
          → (batches_rounds rounds c first offset r).1.expected_tcp_seq ≡ r.expected_tcp_seq)
      → (f : Flow) → (next_round rounds f).1.expected_tcp_seq ≡ seq_of f
  unfolding next_round
  next_round-seq rounds ih (returns result r) = refl
  next_round-seq rounds ih (continues offset r) = ih false offset r

  rounds-seq :
      (rounds : ℕ) (first : Bool) (offset : ℕ) (r : ResponseContext)
      → (batches_rounds rounds c first offset r).1.expected_tcp_seq ≡ r.expected_tcp_seq
  unfolding batches_rounds next_round
  rounds-seq zero first offset r = refl
  rounds-seq (suc rounds) first offset r =
      next_round-seq rounds (rounds-seq rounds) (dispatch r.state c first offset r)
      ∙ dispatch-seq r.state first offset r

pub record_batches_loop-seq :
    (c : Call) (r : ResponseContext)
    → (record_batches_loop c r).1.expected_tcp_seq ≡ r.expected_tcp_seq
unfolding record_batches_loop
record_batches_loop-seq c r = elim (Bool-cases (neg32 r.carry_over_offset)) [
  | inl e ↦ rw e refl
  | inr e ↦ rw e (
      rounds-seq c response_parser_max_iterations true (u32 (c.orig_offset + r.carry_over_offset))
        (record r { carry_over_offset = 0 }))
]
