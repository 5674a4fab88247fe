-- ===== src/Kafka/Request/Process/Accepts.antt =====
-- What an accepted request looks like.
use erda_agent.Base.{
  ℕ, zero, suc, ◌+◌, ◌^◌, ◌≤◌, ◌<◌, ◌≡◌, ◌↔◌, ◌⊎◌, refl, List, some, Bool, true, false, ◌&&◌, ◌||◌,
  ◌==◌, if◌then◌else◌, u8, u32, replicate, get_or, arith, Bool-cases, Option-cases, inl, inr, ap,
  subst, sym, ◌∙◌,
}
use erda_agent.Packet.{Skb}
use erda_agent.Packet.Buffer.{read_big_endian, read_into_buffer}
use erda_agent.Kafka.Types.{KafkaHeader, Transaction, kafka_produce, kafka_fetch, header_size}
use erda_agent.Kafka.Request.{
  positive16, below_minus_one16, header_of, is_topic_char, is_printable, check_string,
  read_first_topic_name_size, is_valid_client_id, is_valid_kafka_request_header,
  bad_topic_name_size,
}
use erda_agent.Kafka.Request.Process.{
  Parsed, rejected, accepted, check_string_for_parsing, read_records_count, parse_records,
  parse_topic_name, topic_offset, parse_body, parse_client_id, parse_request,
}

-- `CHECK_STRING_COMPOSED_OF_ASCII`, on the rounds that are left: exactly the buffers whose bytes at
-- the positions from `j` on that are below the string's size and the number of rounds are allowed.
pub check_string_iff :
    (rounds j real_size : ℕ) (printable_ok : Bool) (buffer : List ℕ)
    → (check_string rounds j real_size printable_ok buffer ≡ true) ↔ (
        (i : ℕ)
        → j ≤ i
        → i < j + rounds
        → i < real_size
        → (is_topic_char (get_or buffer i 0) || (printable_ok && is_printable (get_or buffer i 0)))
          ≡ true)
unfolding check_string
check_string_iff zero j real_size printable_ok buffer =
    ((λ _ i a b c. absurd (omega arith)), (λ _. refl))
check_string_iff (suc rounds) j real_size printable_ok buffer =
    let ih = check_string_iff rounds (j + 1) real_size printable_ok buffer in
    (
      (λ h i a b c. elim (Bool-cases (i == j)) [
        | inl e ↦ let f : i ≡ j = ground arith in rw f (ground arith)
        | inr e ↦
            let f : j + 1 ≤ i = ground arith in
            let g : check_string rounds (j + 1) real_size printable_ok buffer ≡ true =
              ground arith in
            ih.0 g i f (omega arith) c
      ]),
      (λ f.
          let g : check_string rounds (j + 1) real_size printable_ok buffer ≡ true =
            ih.1 (λ i a b c. f i (omega arith) (omega arith) c) in
          ground (arith, f j)),
    )

for_parsing_past_end :
    (rounds j real_size : ℕ) (buffer : List ℕ)
    → real_size ≤ j
    → check_string_for_parsing rounds j real_size buffer ≡ true
unfolding check_string_for_parsing
for_parsing_past_end zero j real_size buffer h = refl
for_parsing_past_end (suc rounds) j real_size buffer h =
    ground (arith, for_parsing_past_end rounds (j + 1) real_size buffer (omega arith))

-- The filter's macro accepts exactly the names that the classifier's macro does.
pub check_string_for_parsing-eq-check_string :
    (rounds j real_size : ℕ) (buffer : List ℕ)
    → check_string_for_parsing rounds j real_size buffer
      ≡ check_string rounds j real_size false buffer
unfolding check_string check_string_for_parsing
check_string_for_parsing-eq-check_string zero j real_size buffer = refl
check_string_for_parsing-eq-check_string (suc rounds) j real_size buffer =
    let ih = check_string_for_parsing-eq-check_string rounds (j + 1) real_size buffer in
    ground (arith, ih, for_parsing_past_end rounds (j + 1) real_size buffer)

-- A transaction `t` and a header that a request may have.
pub record IsRequest (h : KafkaHeader) (t : Transaction) : Type 0 where
  pub message_size : (header_size ≤ h.message_size) × (h.message_size < 2 ^ 31)
  pub correlation_id : h.correlation_id < 2 ^ 31
  pub client_id_size : (h.client_id_size < 2 ^ 15) ⊎ (2 ^ 16 ≤ h.client_id_size + 1)
  pub operation :
      ((h.api_key ≡ kafka_fetch) × (h.api_version ≤ 11) × (t.records_count ≡ 0))
      ⊎ ((h.api_key ≡ kafka_produce)
          × (1 ≤ h.api_version)
          × (h.api_version ≤ 8)
          × (0 < t.records_count)
          × (t.records_count < 2 ^ 31))
  pub same_operation : (t.request_api_key ≡ h.api_key) × (t.request_api_version ≡ h.api_version)
  pub topic_size : (0 < t.topic_name_size) × (t.topic_name_size ≤ 255)
  pub topic_name :
      (i : ℕ) → i < 48 → i < t.topic_name_size → is_topic_char (get_or t.topic_name i 0) ≡ true

records_count_bounds :
    (skb : Skb) (offset n : ℕ) → read_records_count skb offset ≡ some n → (0 < n) × (n < 2 ^ 31)
unfolding read_records_count
records_count_bounds skb offset n e = elim (Option-cases (read_big_endian 4 skb offset)) [
  | inl a ↦ ground arith
  | inr (partitions, a) ↦ elim (Option-cases (read_big_endian 1 skb (u32 (offset + 28)))) [
    | inl b ↦ ground arith
    | inr (magic, b) ↦ elim (Option-cases (read_big_endian 4 skb (u32 (offset + 28 + 1 + 40)))) [
      | inl d ↦ ground arith
      | inr (count, d) ↦ ground arith
    ]
  ]
]

parse_records_inv :
    (skb : Skb) (offset : ℕ) (h h' : KafkaHeader) (t t' : Transaction)
    → parse_records skb offset h t ≡ accepted h' t'
    → (h' ≡ h)
      × (t' ≡ record t { records_count = t'.records_count })
      × (((h.api_key ≡ kafka_fetch) × (t'.records_count ≡ 0))
          ⊎ ((h.api_key ≡ kafka_produce) × (0 < t'.records_count) × (t'.records_count < 2 ^ 31)))
unfolding parse_records
parse_records_inv skb offset h h' t t' e = elim (Option-cases (read_records_count skb offset)) [
  | inl n ↦ ground arith
  | inr (n, f) ↦ let b = records_count_bounds skb offset n f in ground arith
]

valid_header :
    (h : KafkaHeader)
    → is_valid_kafka_request_header h ≡ true
    → (header_size ≤ h.message_size)
      × (h.message_size < 2 ^ 31)
      × (h.correlation_id < 2 ^ 31)
      × ((h.client_id_size < 2 ^ 15) ⊎ (2 ^ 16 ≤ h.client_id_size + 1))
      × (((h.api_key ≡ kafka_fetch) × (h.api_version ≤ 11))
          ⊎ ((h.api_key ≡ kafka_produce) × (1 ≤ h.api_version) × (h.api_version ≤ 8)))
unfolding is_valid_kafka_request_header
valid_header h e = ground arith

-- What every part behind the header's check shows of a transaction that it accepts.
record Parses (h h' : KafkaHeader) (t t' : Transaction) : Type 0 where
  header : h' ≡ h
  started : t'.request_started ≡ t.request_started
  key : t'.request_api_key ≡ t.request_api_key
  version : t'.request_api_version ≡ t.request_api_version
  records :
      ((h.api_key ≡ kafka_fetch) × (t'.records_count ≡ 0))
      ⊎ ((h.api_key ≡ kafka_produce) × (0 < t'.records_count) × (t'.records_count < 2 ^ 31))
  size : (0 < t'.topic_name_size) × (t'.topic_name_size ≤ 255)
  name : check_string 48 0 t'.topic_name_size false t'.topic_name ≡ true

of_true : (b : Bool) (f g t : Parsed) → b ≡ true → (if b then f else g) ≡ t → f ≡ t
of_true true f g t h e = e
of_true false f g t h e = cc

of_false : (b : Bool) (f g t : Parsed) → b ≡ false → (if b then f else g) ≡ t → g ≡ t
of_false false f g t h e = e
of_false true f g t h e = cc

good_size : (size : ℕ) → bad_topic_name_size size ≡ false → (0 < size) × (size ≤ 255)
good_size size e = ground arith

-- A guard that rejects, on its one or its other side.
guard_else :
    (b : Bool) (f : Parsed) (r t : Transaction) (h : KafkaHeader)
    → (if b then f else rejected r) ≡ accepted h t
    → (b ≡ true) × (f ≡ accepted h t)
guard_else true f r t h e = (refl, e)
guard_else false f r t h e = cc

guard_then :
    (b : Bool) (f : Parsed) (r t : Transaction) (h : KafkaHeader)
    → (if b then rejected r else f) ≡ accepted h t
    → (b ≡ false) × (f ≡ accepted h t)
guard_then false f r t h e = (refl, e)
guard_then true f r t h e = cc

parse_topic_name-Parses :
    (skb : Skb) (size offset : ℕ) (h h' : KafkaHeader) (t t' : Transaction)
    → parse_topic_name skb size offset h t ≡ accepted h' t'
    → Parses h h' t t'
unfolding parse_topic_name
parse_topic_name-Parses skb size offset h h' t t' e =
    let named = record t {
      topic_name = read_into_buffer 80 skb offset (replicate 80 0);
      topic_name_size = size;
    } in
    let (ok, e1) = guard_then (bad_topic_name_size size) _ t t' h' e in
    let (chk, e2) =
      guard_else (check_string_for_parsing 48 0 size named.topic_name)
        (parse_records skb (u32 (offset + size)) h named) named t' h' e1 in
    let (eh, et, er) = parse_records_inv skb (u32 (offset + size)) h h' named t' e2 in
    let c = check_string_for_parsing-eq-check_string 48 0 size named.topic_name in
    record {
      header = eh;
      started = ap (λ (x : Transaction). x.request_started) et;
      key = ap (λ (x : Transaction). x.request_api_key) et;
      version = ap (λ (x : Transaction). x.request_api_version) et;
      records = er;
      size =
          subst (λ (x : Transaction). (0 < x.topic_name_size) × (x.topic_name_size ≤ 255)) (sym et)
            (good_size size ok);
      name =
          subst (λ (x : Transaction). check_string 48 0 x.topic_name_size false x.topic_name ≡ true)
            (sym et) (sym c ∙ chk);
    }

parse_body-Parses :
    (skb : Skb) (offset : ℕ) (h h' : KafkaHeader) (t t' : Transaction)
    → parse_body skb offset h t ≡ accepted h' t'
    → Parses h h' t t'
unfolding parse_body
parse_body-Parses skb offset h h' t t' e = elim (Option-cases (topic_offset skb offset h)) [
  | inl n ↦ ground arith
  | inr (p, f) ↦
      let r = read_first_topic_name_size skb p.0 p.1 in
      parse_topic_name-Parses skb r.0 r.1 h h' t t' (ground arith)
]

parse_client_id-Parses :
    (skb : Skb) (offset : ℕ) (h h' : KafkaHeader) (t t' : Transaction)
    → parse_client_id skb offset h t ≡ accepted h' t'
    → Parses h h' t t'
unfolding parse_client_id
parse_client_id-Parses skb offset h h' t t' e = elim (Bool-cases (positive16 h.client_id_size)) [
  | inl b ↦
      parse_body-Parses skb (u32 (offset + h.client_id_size)) h h' t t'
        (guard_else (is_valid_client_id skb offset h.client_id_size) _ t t' h'
          (of_true (positive16 h.client_id_size) _ _ _ b e)).1
  | inr b ↦
      parse_body-Parses skb offset h h' t t'
        (guard_then (below_minus_one16 h.client_id_size) _ t t' h'
          (of_false (positive16 h.client_id_size) _ _ _ b e)).1
]

Parses-IsRequest :
    (h h' : KafkaHeader) (t t' : Transaction)
    → is_valid_kafka_request_header h ≡ true
    → Parses h h'
        (record t { request_api_key = u8 h.api_key; request_api_version = u8 h.api_version })
        t'
    → IsRequest h t'
Parses-IsRequest h h' t t' valid p =
    let (mn, mx, co, ci, op) = valid_header h valid in
    let chk = (check_string_iff 48 0 t'.topic_name_size false t'.topic_name).0 p.name in
    record {
      message_size = (mn, mx);
      correlation_id = co;
      client_id_size = ci;
      operation = ground (arith, op, p.records);
      same_operation = (ground (arith, op, p.key), ground (arith, op, p.version));
      topic_size = p.size;
      topic_name = λ i a b. ground (arith, chk i (omega arith) (omega arith) b);
    }

-- Whatever the packet holds: if `kafka_process` accepts it at an offset, the header it goes by is
-- the one whose 14 bytes it loaded there; that is a Fetch of a version up to 11, to which it counts
-- no records, or a Produce of a version 1 to 8, to which it counts at least one and fewer than
-- 2 ^ 31; message size, correlation id and client id's size are in their ranges; the operation and
-- version kept are the header's, the start time is as before; the topic name has 1 to 255 bytes, of
-- which the first 48 are letters, digits, `.`, `_` or `-`.
pub parse_request-IsRequest :
    (skb : Skb) (offset : ℕ) (h : KafkaHeader) (t t' : Transaction)
    → parse_request skb offset t ≡ accepted h t'
    → (h ≡ header_of (skb.load_bytes offset (replicate header_size 0)).1)
      × (t'.request_started ≡ t.request_started)
      × IsRequest h t'
unfolding parse_request
parse_request-IsRequest skb offset h t t' e =
    let g = header_of (skb.load_bytes offset (replicate header_size 0)).1 in
    elim (Bool-cases (is_valid_kafka_request_header g)) [
      | inr b ↦ ground arith
      | inl b ↦
          let p =
            parse_client_id-Parses skb (u32 (offset + header_size)) g h
              (record t { request_api_key = u8 g.api_key; request_api_version = u8 g.api_version })
              t' (ground arith) in
          (
            p.header,
            p.started,
            subst (λ (x : KafkaHeader). IsRequest x t') (sym p.header)
                (Parses-IsRequest g h t t' b p),
          )
    ]
