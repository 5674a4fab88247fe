-- ===== src/Rpc/Amqp/Methods.antt =====
-- Which method frames the test for AMQP takes.
use erda_agent.Base.{
  ℕ, ◌<◌, ◌≤◌, ◌≡◌, ◌↔◌, ◌⊎◌, refl, sym, ◌∙◌, inl, inr, some, length, Option-cases, Bool-cases,
  List, ◌∷◌, true, false, ltb, arith,
}
use erda_agent.Maps.{lookup, write}
use erda_agent.Maps.Laws.{lookup-update_self, lookup-update_bound, lookup-write_self}
use erda_agent.Packet.{ConnTuple, tuple_eq}
use erda_agent.Rpc.Amqp.{
  AmqpHeader, AmqpData, zero_event, AmqpState, is_amqp_protocol_header, amqp_header_of,
  queue_methods, basic_methods, connection_methods, is_tracked, store_header, is_amqp,
}

-- A method frame: its type, the channel, the size, the class and the method, whose upper bytes are
-- 0, and what follows.
abbrev pub method_frame :
    (channel size : ℕ × ℕ) (class_id method_id next : ℕ) (rest : List ℕ) → List ℕ
method_frame channel size class_id method_id next rest =
    1 ∷ channel.0 ∷ channel.1 ∷ 0 ∷ 0 ∷ size.0 ∷ size.1 ∷ 0 ∷ class_id ∷ 0 ∷ method_id ∷ next ∷ rest

-- The methods of the three classes that the source names, each class with those of the labels that
-- its own falls through to.
abbrev pub IsNamed : ℕ → ℕ → Type 0
IsNamed class_id method_id =
    ((class_id ≡ 10)
      × ((method_id ≡ 11)
          ⊎ ((method_id ≡ 20)
              ⊎ ((method_id ≡ 40) ⊎ ((method_id ≡ 50) ⊎ ((method_id ≡ 51) ⊎ (method_id ≡ 60)))))))
    ⊎ (((class_id ≡ 60) × ((method_id ≡ 20) ⊎ ((method_id ≡ 40) ⊎ (method_id ≡ 60))))
        ⊎ ((class_id ≡ 50) × (method_id ≡ 20)))

is_tracked_iff :
    (channel size : ℕ × ℕ) (class_id method_id next : ℕ) (rest : List ℕ)
    → class_id < 256
    → method_id < 256
    → (is_tracked (amqp_header_of (method_frame channel size class_id method_id next rest)) ≡ true)
      ↔ ((next ≡ 0) × IsNamed class_id method_id)
unfolding is_tracked connection_methods basic_methods queue_methods amqp_header_of
is_tracked_iff channel size class_id method_id next rest c m = ground arith

store_header-stored :
    (t : ConnTuple) (hdr : AmqpHeader) (s : AmqpState)
    → length s.amqp_filter_map.entries < s.amqp_filter_map.max_entries
    → (entry : AmqpData) × (lookup (store_header t hdr s).amqp_filter_map t ≡ some entry)
      × (entry.hdr ≡ hdr)
unfolding store_header
store_header-stored t hdr s room = elim (Option-cases (lookup s.amqp_filter_map t)) [
  | inl e ↦
      let new : AmqpData = record { hdr = hdr; event = zero_event } in
      rw (store_header, e) (new, lookup-update_self s.amqp_filter_map t new room, refl)
  | inr (old, e) ↦
      let new : AmqpData = record old { hdr = hdr } in
      let m = write s.amqp_filter_map t new in
      rw (store_header, e)
        (
          new,
          lookup-update_bound m t new new (lookup-write_self s.amqp_filter_map t new old e),
          refl,
        )
]

no_preface :
    (channel size : ℕ × ℕ) (class_id method_id next : ℕ) (rest : List ℕ) (buf_size : ℕ)
    → is_amqp_protocol_header (method_frame channel size class_id method_id next rest) buf_size
      ≡ false
unfolding is_amqp_protocol_header
no_preface channel size class_id method_id next rest buf_size = ground arith

-- A method frame of at least eleven bytes is taken for AMQP exactly if the byte behind the method is
-- 0 and the source names the method, for its class or for a class that its own falls through to. Its
-- header is then stored under the connection (the map has room); otherwise nothing changes. The
-- numbers of class and method are below 256.
pub is_amqp-IsNamed :
    (t : ConnTuple) (channel size : ℕ × ℕ) (class_id method_id next : ℕ) (rest : List ℕ)
    (buf_size : ℕ) (s : AmqpState)
    → class_id < 256
    → method_id < 256
    → 11 ≤ buf_size
    → length s.amqp_filter_map.entries < s.amqp_filter_map.max_entries
    → let buf = method_frame channel size class_id method_id next rest in
      let result = is_amqp t buf buf_size s in
      ((result.0 ≡ true) ↔ ((next ≡ 0) × IsNamed class_id method_id))
      × (result.0 ≡ true
          → (entry : AmqpData) × (lookup (result.1).amqp_filter_map t ≡ some entry)
            × (entry.hdr ≡ amqp_header_of buf))
      × (result.0 ≡ false → result.1 ≡ s)
unfolding is_amqp
is_amqp-IsNamed t channel size class_id method_id next rest buf_size s c m long room =
    let hdr = amqp_header_of (method_frame channel size class_id method_id next rest) in
    let named = is_tracked_iff channel size class_id method_id next rest c m in
    let method = no_preface channel size class_id method_id next rest buf_size in
    let short : ltb buf_size 11 ≡ false = ground arith in
    elim (Bool-cases (is_tracked hdr)) [
      | inl tracked ↦
          rw (method, short, tracked)
            (
              ((λ e. named.0 tracked), (λ e. refl)),
              (λ e. store_header-stored t hdr s room),
              (λ e. ground (arith, e)),
            )
      | inr untracked ↦
          rw (method, short, untracked)
            (
              ((λ e. ground (arith, e)), (λ n. sym untracked ∙ named.1 n)),
              (λ e. ground (arith, e)),
              (λ e. refl),
            )
    ]
