-- ===== src/Http/Invariant.antt =====
-- What every entry of the filter's maps satisfies, after any packet.
use erda_agent.Base.{
  ℕ, zero, suc, nat_eq, ◌+◌, ◌^◌, ◌≤◌, ◌<◌, ◌≡◌, ◌≢◌, refl, ◌∙◌, inl, inr, List, length, take, drop,
  replicate, u32, ltb, ◌==◌, length-take, length-drop, length-append, length-replicate, arith,
  Option-cases, Bool-cases,
}
use erda_agent.Maps.{lookup}
use erda_agent.Maps.Laws.{delete-write}
use erda_agent.Maps.Entries.{Holds, lookup-Holds, delete-Holds, update-Holds}
use erda_agent.Packet.{Skb, SockKey, ConnTuple, zero_tuple, sock_key_eq, read_conn_tuple_skb}
use erda_agent.Packet.Bytes.{Fills}
use erda_agent.Packet.Buffer.{load_front}
use erda_agent.Http.{
  HttpState, HttpInfo, HttpMethod, HttpPhase, http_method_unknown, http_phase_unknown, http_request,
  http_response, http_payload_size, payload_end, zero_key, compose_conn_key, char_to_u8,
  read_status_code, store_request, note_request, answered, note_response, process_phase,
  read_prefix, read_http_info, is_drop_packet, socket_filter_package, load_tail, load_blocks,
  load_http_payload,
}
use erda_agent.Http.Pairing.{fragment_of, pending}

-- A request that waits for its response.
pub record IsPending (i : HttpInfo) : Type 0 where
  pub named : i.method ≢ http_method_unknown
  pub no_duration : i.duration ≡ 0
  pub no_status : i.status_code ≡ 0
  pub fragment_size : length i.request_fragment ≡ http_payload_size

-- A request with its response; 28305 is three times the mark of `char_to_u8`.
pub record IsAnswered (i : HttpInfo) : Type 0 where
  pub named : i.method ≢ http_method_unknown
  pub duration_fits : i.duration < 2 ^ 64
  pub status_fits : i.status_code ≤ 28305
  pub fragment_size : length i.request_fragment ≡ http_payload_size

pub record IsValid (s : HttpState) : Type 0 where
  pub processing : Holds IsPending s.http_processing_map
  pub metrics : Holds IsAnswered s.metrics_map

module _ (skb : Skb) (fills : Fills skb) where
  length-load_front : (off n : ℕ) (buf : List ℕ) → length (load_front skb off n buf) ≡ length buf
  unfolding load_front
  length-load_front off n buf = omega (
    arith,
    length-append (skb.load_bytes off (take n buf)).1 (drop n buf),
    fills off (take n buf),
    length-take n buf,
    length-drop n buf,
  )

  length-load_tail :
      (n end off : ℕ) (buf : List ℕ) → length (load_tail n skb end off buf) ≡ length buf
  unfolding load_tail
  length-load_tail zero end off buf = refl
  length-load_tail (suc n) end off buf =
      ground (arith, length-load_front off (suc n) buf, length-load_tail n end off buf)

  length-load_blocks :
      (n end off : ℕ) (buf : List ℕ) → length (load_blocks n skb end off buf) ≡ length buf
  unfolding load_blocks
  length-load_blocks zero end off buf = refl
  length-load_blocks (suc n) end off buf = elim (Bool-cases (ltb end (u32 (off + 16)))) [
    | inl last ↦ rw (load_blocks, last) (length-load_tail 15 end off buf)
    | inr more ↦
        let rest = load_blocks n skb end (u32 (off + 16)) (drop 16 buf) in
        rw (load_blocks, more)
          (omega (
            arith,
            length-append (skb.load_bytes off (take 16 buf)).1 rest,
            length-load_blocks n end (u32 (off + 16)) (drop 16 buf),
            fills off (take 16 buf),
            length-take 16 buf,
            length-drop 16 buf,
          ))
  ]

  length-fragment : (off : ℕ) → length (fragment_of skb off) ≡ http_payload_size
  unfolding load_http_payload
  length-fragment off =
      let zeros : List ℕ = replicate http_payload_size 0 in
      let size = length-replicate http_payload_size (zero) in
      elim (Bool-cases (off == payload_end skb off)) [
        | inl at_end ↦ rw (load_http_payload, at_end) size
        | inr more ↦
            rw (load_http_payload, more)
              (length-load_blocks 14 (payload_end skb off) off zeros ∙ size)
      ]

read_status_code-le : (payload : List ℕ) → read_status_code payload ≤ 28305
unfolding read_status_code char_to_u8
read_status_code-le payload = ground arith

answered-IsAnswered :
    (now : ℕ) (payload : List ℕ) (i : HttpInfo) → IsPending i → IsAnswered (answered now payload i)
unfolding answered
answered-IsAnswered now payload i p = record {
  named = p.named;
  duration_fits = ground (arith, p.no_duration);
  status_fits = read_status_code-le payload;
  fragment_size = p.fragment_size;
}

module _ (now : ℕ) (k : SockKey) (s : HttpState) (valid : IsValid s) where
  store_request-IsValid :
      (m : HttpMethod) (fragment : List ℕ)
      → length fragment ≡ http_payload_size
      → IsValid (store_request now k m fragment s)
  unfolding store_request
  store_request-IsValid http_method_unknown fragment size = valid
  store_request-IsValid m fragment size = record {
    processing =
        update-Holds IsPending s.http_processing_map k (pending now m fragment) valid.processing
          (record {
            named = λ e. ground (arith, e);
            no_duration = refl;
            no_status = refl;
            fragment_size = size;
          });
    metrics = valid.metrics;
  }

  note_request-IsValid :
      (m : HttpMethod) (fragment : List ℕ)
      → length fragment ≡ http_payload_size
      → IsValid (note_request now k m fragment s)
  unfolding note_request
  note_request-IsValid m fragment size = elim (Option-cases (lookup s.filter_map k.src_ip)) [
    | inl e ↦ rw (note_request, e) valid
    | inr (_, e) ↦ rw (note_request, e) (store_request-IsValid m fragment size)
  ]

  note_response-IsValid : (payload : List ℕ) → IsValid (note_response now k payload s)
  unfolding note_response
  note_response-IsValid payload = elim (Option-cases (lookup s.http_processing_map k)) [
    | inl e ↦ rw (note_response, e) valid
    | inr (i, e) ↦
        let a = answered now payload i in
        let p = lookup-Holds IsPending s.http_processing_map k i valid.processing e in
        rw (note_response, e)
          (record {
            processing =
                rw (delete-write s.http_processing_map k a)
                  (delete-Holds IsPending s.http_processing_map k valid.processing);
            metrics =
                update-Holds IsAnswered s.metrics_map k a valid.metrics
                  (answered-IsAnswered now payload i p);
          })
  ]

  process_phase-IsValid :
      (phase : HttpPhase) (m : HttpMethod) (fragment : List ℕ)
      → length fragment ≡ http_payload_size
      → IsValid (process_phase now phase k m fragment s)
  unfolding process_phase
  process_phase-IsValid http_phase_unknown m fragment size = valid
  process_phase-IsValid http_request m fragment size = note_request-IsValid m fragment size
  process_phase-IsValid http_response m fragment size = note_response-IsValid fragment

read_http_info-IsValid :
    (now : ℕ) (skb : Skb) (t : ConnTuple) (offset : ℕ) (s : HttpState)
    → Fills skb
    → IsValid s
    → IsValid (read_http_info now skb t offset s)
unfolding read_http_info
read_http_info-IsValid now skb t offset s fills valid =
    let x = read_prefix skb offset in
    process_phase-IsValid now (compose_conn_key zero_key t x.phase) s valid x.phase x.method
      (fragment_of skb x.offset) (length-fragment skb fills x.offset)

-- After any packet: each request that waits has a known method, a fragment of 224 bytes and neither
-- a duration nor a status; each answered one has a known method, a fragment of 224 bytes, a duration
-- of 64 bits and a status of at most 28305; and neither map is over its limit.
pub socket_filter_package-IsValid :
    (now : ℕ) (skb : Skb) (s : HttpState)
    → Fills skb
    → IsValid s
    → IsValid (socket_filter_package now skb s)
unfolding socket_filter_package
socket_filter_package-IsValid now skb s fills valid =
    elim (Option-cases (read_conn_tuple_skb skb zero_tuple)) [
      | inl e ↦ rw (socket_filter_package, e) valid
      | inr ((info, t), e) ↦ elim (Bool-cases (is_drop_packet t)) [
        | inl dropped ↦ rw (socket_filter_package, e, dropped) valid
        | inr kept ↦
            rw (socket_filter_package, e, kept)
              (read_http_info-IsValid now skb t info.data_off s fills valid)
      ]
    ]
