-- ===== src/Http/Keeps.antt =====
-- A packet touches the entries of its own connection only.
use erda_agent.Base.{
  ℕ, nat_eq, ◌≡◌, refl, sym, ap, ◌∙◌, inl, inr, List, Option, none, some, false, replicate,
  Option-cases, Bool-cases,
}
use erda_agent.Maps.{lookup, write}
use erda_agent.Maps.Laws.{lookup-delete_other, lookup-write_other, lookup-update_other}
use erda_agent.Packet.{
  Skb, SkbInfo, SockKey, ConnTuple, zero_tuple, sock_key_beq, sock_key_eq, read_conn_tuple_skb,
}
use erda_agent.Http.{
  http_payload_size, load_http_payload, HttpState, HttpMethod, HttpPhase, http_method_unknown,
  http_phase_unknown, http_request, http_response, zero_key, compose_conn_key, store_request,
  note_request, answered, note_response, process_phase, read_prefix, read_http_info, is_drop_packet,
  socket_filter_package,
}

abbrev key_in : Skb → Option (SkbInfo × ConnTuple) → SockKey
key_in skb none = zero_key
key_in skb (some (info, t)) = compose_conn_key zero_key t (read_prefix skb info.data_off).phase

-- The key under which the packet is filed.
unfoldable pub conn_key : Skb → SockKey
unfolding read_conn_tuple_skb
conn_key skb = key_in skb (read_conn_tuple_skb skb zero_tuple)

-- Two states that agree on a connection, and on the addresses to watch.
pub record Agrees (k : SockKey) (s s' : HttpState) : Type 0 where
  pub same_filter : s'.filter_map ≡ s.filter_map
  pub same_processing : lookup s'.http_processing_map k ≡ lookup s.http_processing_map k
  pub same_metrics : lookup s'.metrics_map k ≡ lookup s.metrics_map k

Agrees-refl : (k : SockKey) (s : HttpState) → Agrees k s s
Agrees-refl k s = record { same_filter = refl; same_processing = refl; same_metrics = refl }

module _ (k j : SockKey) (other : sock_key_beq k j ≡ false) where
  store_request-Agrees :
      (now : ℕ) (m : HttpMethod) (fragment : List ℕ) (s : HttpState)
      → Agrees j s (store_request now k m fragment s)
  unfolding store_request
  store_request-Agrees now http_method_unknown fragment s = Agrees-refl j s
  store_request-Agrees now m fragment s = record {
    same_filter = refl;
    same_processing = lookup-update_other s.http_processing_map k j _ other;
    same_metrics = refl;
  }

  note_request-Agrees :
      (now : ℕ) (m : HttpMethod) (fragment : List ℕ) (s : HttpState)
      → Agrees j s (note_request now k m fragment s)
  unfolding note_request
  note_request-Agrees now m fragment s = elim (Option-cases (lookup s.filter_map k.src_ip)) [
    | inl e ↦ rw (note_request, e) (Agrees-refl j s)
    | inr (_, e) ↦ rw (note_request, e) (store_request-Agrees now m fragment s)
  ]

  note_response-Agrees :
      (now : ℕ) (payload : List ℕ) (s : HttpState) → Agrees j s (note_response now k payload s)
  unfolding note_response
  note_response-Agrees now payload s = elim (Option-cases (lookup s.http_processing_map k)) [
    | inl e ↦ rw (note_response, e) (Agrees-refl j s)
    | inr (i, e) ↦
        rw (note_response, e)
          (record {
            same_filter = refl;
            same_processing =
                lookup-delete_other (write s.http_processing_map k (answered now payload i)) k j
                  other
                ∙ lookup-write_other s.http_processing_map k j (answered now payload i) other;
            same_metrics = lookup-update_other s.metrics_map k j (answered now payload i) other;
          })
  ]

  process_phase-Agrees :
      (now : ℕ) (phase : HttpPhase) (m : HttpMethod) (fragment : List ℕ) (s : HttpState)
      → Agrees j s (process_phase now phase k m fragment s)
  unfolding process_phase
  process_phase-Agrees now http_phase_unknown m fragment s = Agrees-refl j s
  process_phase-Agrees now http_request m fragment s = note_request-Agrees now m fragment s
  process_phase-Agrees now http_response m fragment s = note_response-Agrees now fragment s

read_http_info-Agrees :
    (now : ℕ) (skb : Skb) (t : ConnTuple) (offset : ℕ) (j : SockKey) (s : HttpState)
    → sock_key_beq (compose_conn_key zero_key t (read_prefix skb offset).phase) j ≡ false
    → Agrees j s (read_http_info now skb t offset s)
unfolding read_http_info
read_http_info-Agrees now skb t offset j s other =
    let x = read_prefix skb offset in
    process_phase-Agrees (compose_conn_key zero_key t x.phase) j other now x.phase x.method
      (load_http_payload skb x.offset (replicate http_payload_size 0)) s

pub socket_filter_package-Agrees :
    (now : ℕ) (skb : Skb) (j : SockKey) (s : HttpState)
    → sock_key_beq (conn_key skb) j ≡ false
    → Agrees j s (socket_filter_package now skb s)
unfolding socket_filter_package conn_key
socket_filter_package-Agrees now skb j s other =
    elim (Option-cases (read_conn_tuple_skb skb zero_tuple)) [
      | inl e ↦ rw (socket_filter_package, e) (Agrees-refl j s)
      | inr ((info, t), e) ↦ elim (Bool-cases (is_drop_packet t)) [
        | inl dropped ↦ rw (socket_filter_package, e, dropped) (Agrees-refl j s)
        | inr kept ↦
            rw (socket_filter_package, e, kept)
              (read_http_info-Agrees now skb t info.data_off j s
                (ap (λ o. sock_key_beq (key_in skb o) j) (sym e) ∙ other))
      ]
    ]
