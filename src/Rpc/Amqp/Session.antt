-- ===== src/Rpc/Amqp/Session.antt =====
-- A connection of AMQP from its opening to its closing, through the test of ebpf/include/amqp.h and
-- `socket__amqp_filter` of ebpf/plugins/rpc/main.c.
use erda_agent.Base.{
  ℕ, nat_eq, ◌+◌, ◌^◌, ◌<◌, ◌≡◌, refl, sym, ap, subst, ◌∙◌, List, [], ◌∷◌, none, some, false,
  length, All, u32, sub64, bswap16, arith,
}
use erda_agent.Maps.{HashMap, lookup, update, write, delete}
use erda_agent.Maps.Laws.{
  lookup-update_self, lookup-update_bound, lookup-write_self, lookup-delete_self,
}
use erda_agent.Packet.{Skb, SkbInfo, ConnTuple, zero_tuple, tuple_eq, read_conn_tuple_skb, eth_p_ip}
use erda_agent.Rpc.Amqp.{
  AmqpHeader, AmqpData, AmqpEvent, AmqpState, AmqpTrace, amqp_publish, zero_event, connection_class,
  basic_class, method_start_ok, method_publish, method_close, store_header,
}
use erda_agent.Rpc.Amqp.Events.{
  deliver_event, consumed, consume_event, publish_event, basic_event, is_unknown, amqp_addresses,
  write_event, close_event, connection_event, amqp_class, socket_amqp_filter,
}

-- A packet that the test has taken for AMQP, with its header and the readings of the clock.
pub record AmqpPacket : Type 0 where
  pub now1 : ℕ
  pub now2 : ℕ
  pub hdr : AmqpHeader
  pub skb : Skb

-- What the test leaves of a packet with a method, and the program on it.
unfoldable pub amqp_packet : ConnTuple → AmqpPacket → AmqpState → AmqpState
unfolding store_header socket_amqp_filter
amqp_packet t p s = socket_amqp_filter p.now1 p.now2 p.skb (store_header t p.hdr s)

unfoldable pub amqp_packets : ConnTuple → List AmqpPacket → AmqpState → AmqpState
unfolding amqp_packet
amqp_packets t [] s = s
amqp_packets t (p ∷ packets) s = amqp_packets t packets (amqp_packet t p s)

-- A packet of the connection that carries this method.
pub record IsMethod (t : ConnTuple) (class method : ℕ) (p : AmqpPacket) : Type 0 where
  pub info : SkbInfo
  pub tuple_read : read_conn_tuple_skb p.skb zero_tuple ≡ some (info, t)
  pub class_eq : p.hdr.class_id ≡ class
  pub method_eq : p.hdr.method_id ≡ method

-- The connection has the event, and the traces are these.
record Waits (t : ConnTuple) (e : AmqpEvent) (traces : HashMap ℕ AmqpTrace) (s : AmqpState)
    : Type 0 where
  hdr : AmqpHeader
  entry : lookup s.amqp_filter_map t ≡ some (record { hdr = hdr; event = e })
  same_traces : s.amqp_trace_map ≡ traces

-- The program on a connection whose entry is this one.
amqp_packet-class :
    (t : ConnTuple) (p : AmqpPacket) (s : AmqpState) (class method : ℕ) (e : AmqpEvent)
    (traces : HashMap ℕ AmqpTrace) (i : IsMethod t class method p)
    → lookup (store_header t p.hdr s).amqp_filter_map t ≡ some (record { hdr = p.hdr; event = e })
    → amqp_packet t p s
      ≡ amqp_class p.now1 p.now2 p.skb t i.info
          (record { hdr = p.hdr; event = e })
          (store_header t p.hdr s)
unfolding amqp_packet socket_amqp_filter
amqp_packet-class t p s class method e traces i there =
    rw (amqp_packet, socket_amqp_filter, i.tuple_read, there) refl

store_header-Waits :
    (t : ConnTuple) (h : AmqpHeader) (s : AmqpState) (e : AmqpEvent) (traces : HashMap ℕ AmqpTrace)
    → Waits t e traces s
    → (lookup (store_header t h s).amqp_filter_map t ≡ some (record { hdr = h; event = e }))
      × ((store_header t h s).amqp_trace_map ≡ traces)
unfolding store_header
store_header-Waits t h s e traces w =
    let m = s.amqp_filter_map in
    let old : AmqpData = record { hdr = w.hdr; event = e } in
    let new : AmqpData = record { hdr = h; event = e } in
    let written = lookup-write_self m t new old w.entry in
    rw (store_header, w.entry)
      (lookup-update_bound (write m t new) t new new written, w.same_traces)

write_event-Waits :
    (t : ConnTuple) (entry : AmqpData) (e : AmqpEvent) (traces : HashMap ℕ AmqpTrace)
    (s : AmqpState)
    → lookup s.amqp_filter_map t ≡ some entry
    → s.amqp_trace_map ≡ traces
    → Waits t e traces (write_event t entry e s)
unfolding write_event
write_event-Waits t entry e traces s there same = record {
  hdr = entry.hdr;
  entry = lookup-write_self s.amqp_filter_map t (record entry { event = e }) entry there;
  same_traces = same;
}

publish-Waits :
    (t : ConnTuple) (p : AmqpPacket) (s : AmqpState) (e : AmqpEvent) (traces : HashMap ℕ AmqpTrace)
    (i : IsMethod t basic_class method_publish p)
    → Waits t e traces s
    → Waits t (publish_event p.skb i.info.data_off e) traces (amqp_packet t p s)
unfolding amqp_class basic_event connection_event
publish-Waits t p s e traces i w =
    let stored = store_header-Waits t p.hdr s e traces w in
    let entry : AmqpData = record { hdr = p.hdr; event = e } in
    let run = amqp_packet-class t p s basic_class method_publish e traces i (stored.0) in
    subst (Waits t (publish_event p.skb i.info.data_off e) traces)
      (sym (run ∙ rw (amqp_class, i.class_eq, i.method_eq, basic_event, connection_event) refl))
      (write_event-Waits t entry (publish_event p.skb i.info.data_off e) traces
        (store_header t p.hdr s) (stored.0) (stored.1))

ipv4_addresses :
    (t : ConnTuple) → t.l3_proto ≡ eth_p_ip → amqp_addresses t ≡ some (u32 t.saddr_l, u32 t.daddr_l)
unfolding amqp_addresses
ipv4_addresses t ipv4 = rw (amqp_addresses, ipv4) refl

-- The event of a connection that was opened at these readings of the clock.
abbrev opened : ℕ → ℕ → AmqpEvent
opened now1 now2 = record zero_event { duration = u32 (sub64 now2 (u32 now1)) }

open-Waits :
    (t : ConnTuple) (p : AmqpPacket) (s : AmqpState)
    (i : IsMethod t connection_class method_start_ok p)
    → t.l3_proto ≡ eth_p_ip
    → lookup s.amqp_filter_map t ≡ none
    → length s.amqp_filter_map.entries < s.amqp_filter_map.max_entries
    → Waits t (opened p.now1 p.now2) s.amqp_trace_map (amqp_packet t p s)
unfolding store_header amqp_class connection_event close_event is_unknown
open-Waits t p s i ipv4 fresh room =
    let entry : AmqpData = record { hdr = p.hdr; event = zero_event } in
    let s' = store_header t p.hdr s in
    let stored : s' ≡ record s { amqp_filter_map = update s.amqp_filter_map t entry } =
      rw (store_header, fresh) refl in
    let there : lookup s'.amqp_filter_map t ≡ some entry =
      ap (λ x. lookup x.amqp_filter_map t) stored
      ∙ lookup-update_self s.amqp_filter_map t entry room in
    let run =
      amqp_packet-class t p s connection_class method_start_ok zero_event s.amqp_trace_map i
        there in
    subst (Waits t (opened p.now1 p.now2) s.amqp_trace_map)
      (sym (
        run
        ∙ simp (
          amqp_class,
          i.class_eq,
          i.method_eq,
          connection_event,
          close_event,
          ipv4_addresses t ipv4,
        )))
      (write_event-Waits t entry (opened p.now1 p.now2) s.amqp_trace_map s' there
        (ap (λ (x : AmqpState). x.amqp_trace_map) stored))

-- What publishing does to the event of a connection.
record Published (n : ℕ) (e e' : AmqpEvent) : Type 0 where
  counted : e'.count ≡ u32 (e.count + n)
  same_duration : e'.duration ≡ e.duration
  kind : e.event_type ≡ amqp_publish → e'.event_type ≡ amqp_publish

publishes-Waits :
    (t : ConnTuple) (packets : List AmqpPacket) (s : AmqpState) (e : AmqpEvent)
    (traces : HashMap ℕ AmqpTrace)
    → All (IsMethod t basic_class method_publish) packets
    → e.count < 2 ^ 32
    → Waits t e traces s
    → (e' : AmqpEvent) × Waits t e' traces (amqp_packets t packets s)
      × Published (length packets) e e'
unfolding amqp_packets publish_event consume_event deliver_event consumed
publishes-Waits t [] s e traces methods small w =
    (e, w, record { counted = omega arith; same_duration = refl; kind = λ k. k })
publishes-Waits t (p ∷ packets) s e traces (i, methods) small w =
    let e1 = publish_event p.skb i.info.data_off e in
    let small1 : e1.count < 2 ^ 32 = omega arith in
    let (e', w', q) =
      publishes-Waits t packets (amqp_packet t p s) e1 traces methods small1
        (publish-Waits t p s e traces i w) in
    (
      e',
      w',
      record {
        counted = q.counted ∙ omega arith;
        same_duration = q.same_duration;
        kind = λ k. q.kind refl;
      },
    )

close_traces :
    (t : ConnTuple) (p : AmqpPacket) (s : AmqpState) (e : AmqpEvent) (traces : HashMap ℕ AmqpTrace)
    (i : IsMethod t connection_class method_close p)
    → t.l3_proto ≡ eth_p_ip
    → e.event_type ≡ amqp_publish
    → length traces.entries < traces.max_entries
    → Waits t e traces s
    → let s' = amqp_packet t p s in
      (lookup s'.amqp_filter_map t ≡ none)
      × (lookup s'.amqp_trace_map i.info.tcp_seq
          ≡ some (record {
            dst_ip = u32 t.daddr_l;
            dst_port = bswap16 t.dport;
            src_ip = u32 t.saddr_l;
            src_port = bswap16 t.sport;
            trace_event = record e { duration = u32 (sub64 p.now1 e.duration) };
          }))
unfolding amqp_class connection_event close_event is_unknown write_event
close_traces t p s e traces i ipv4 kind room w =
    let stored = store_header-Waits t p.hdr s e traces w in
    let entry : AmqpData = record { hdr = p.hdr; event = e } in
    let e' : AmqpEvent = record e { duration = u32 (sub64 p.now1 e.duration) } in
    let s1 = store_header t p.hdr s in
    let run = amqp_packet-class t p s connection_class method_close e traces i (stored.0) in
    let trace : AmqpTrace = record {
      dst_ip = u32 t.daddr_l;
      dst_port = bswap16 t.dport;
      src_ip = u32 t.saddr_l;
      src_port = bswap16 t.sport;
      trace_event = e';
    } in
    let s2 : AmqpState = record {
      amqp_filter_map = delete (write s1.amqp_filter_map t (record entry { event = e' })) t;
      amqp_trace_map = update s1.amqp_trace_map i.info.tcp_seq trace;
    } in
    let known : is_unknown e.event_type ≡ false = ap is_unknown kind in
    let left : amqp_packet t p s ≡ s2 =
      run
      ∙ simp (
        amqp_class,
        i.class_eq,
        i.method_eq,
        connection_event,
        close_event,
        ipv4_addresses t ipv4,
        known,
      ) in
    rw (left, stored.1)
      (
        lookup-delete_self (write s1.amqp_filter_map t (record entry { event = e' })) t,
        lookup-update_self traces i.info.tcp_seq trace room,
      )

-- The trace of a connection with n messages published: opened at two readings of the clock, closed
-- at one.
pub record IsSession (t : ConnTuple) (n opened1 opened2 closed : ℕ) (trace : AmqpTrace)
    : Type 0 where
  pub source : (trace.src_ip ≡ u32 t.saddr_l) × (trace.src_port ≡ bswap16 t.sport)
  pub destination : (trace.dst_ip ≡ u32 t.daddr_l) × (trace.dst_port ≡ bswap16 t.dport)
  pub publishes : trace.trace_event.event_type ≡ amqp_publish
  pub messages : trace.trace_event.count ≡ u32 n
  pub duration : trace.trace_event.duration ≡ u32 (sub64 closed (u32 (sub64 opened2 (u32 opened1))))

-- A connection over IPv4 that has no entry is opened by START_OK, then at least one message is
-- published, then it is closed. Afterwards it has no entry, and the trace under the closing packet's
-- sequence number has its addresses and ports and the number of messages; the duration is the time
-- since the start of the clock less the time that passed within the run for START_OK, which falls
-- through to the code for the closing (the map of connections has room at the beginning, that of
-- traces has).
pub amqp_packets-IsSession :
    (t : ConnTuple) (start p close : AmqpPacket) (packets : List AmqpPacket) (s : AmqpState)
    (i : IsMethod t connection_class method_close close)
    → IsMethod t connection_class method_start_ok start
    → IsMethod t basic_class method_publish p
    → All (IsMethod t basic_class method_publish) packets
    → t.l3_proto ≡ eth_p_ip
    → lookup s.amqp_filter_map t ≡ none
    → length s.amqp_filter_map.entries < s.amqp_filter_map.max_entries
    → length s.amqp_trace_map.entries < s.amqp_trace_map.max_entries
    → let s' = amqp_packet t close (amqp_packets t (p ∷ packets) (amqp_packet t start s)) in
      (lookup s'.amqp_filter_map t ≡ none)
      × ((trace : AmqpTrace) × (lookup s'.amqp_trace_map i.info.tcp_seq ≡ some trace)
          × IsSession t (length (p ∷ packets)) start.now1 start.now2 close.now1 trace)
unfolding amqp_packets publish_event consume_event deliver_event consumed
amqp_packets-IsSession t start p close packets s i first publish methods ipv4 fresh room
      room_traces =
    let e = opened start.now1 start.now2 in
    let e1 = publish_event p.skb publish.info.data_off e in
    let s1 = amqp_packet t start s in
    let s2 = amqp_packet t p s1 in
    let w = open-Waits t start s first ipv4 fresh room in
    let w1 = publish-Waits t p s1 e s.amqp_trace_map publish w in
    let (e2, w2, q) = publishes-Waits t packets s2 e1 s.amqp_trace_map methods (omega arith) w1 in
    let done =
      close_traces t close (amqp_packets t packets s2) e2 s.amqp_trace_map i ipv4 (q.kind refl)
        room_traces w2 in
    let n : e1.count + length packets ≡ length (p ∷ packets) = omega arith in
    (
      done.0,
      (
        _,
        done.1,
        record {
          source = (refl, refl);
          destination = (refl, refl);
          publishes = q.kind refl;
          messages = q.counted ∙ ap u32 n;
          duration = ap (λ d. u32 (sub64 close.now1 d)) q.same_duration;
        },
      ),
    )
