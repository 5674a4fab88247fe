-- ===== src/Rpc/Amqp/Events.antt =====
-- `socket__amqp_filter` of ebpf/plugins/rpc/main.c. The switches fall through, so a label is a function
-- of what its code and the code below it do.
use erda_agent.Base.{
  ℕ, ◌+◌, Option, none, some, Bool, true, false, ◌||◌, ◌==◌, if◌then◌else◌, u32, sub64, bswap16,
  nat_eq,
}
use erda_agent.Maps.{lookup, update, delete, write}
use erda_agent.Packet.{
  Skb, SkbInfo, ConnTuple, zero_tuple, tuple_eq, read_conn_tuple_skb, eth_p_ip, eth_p_ipv6,
}
use erda_agent.Rpc.Amqp.{
  amqp_unknown, amqp_consume, amqp_publish, AmqpType, AmqpEvent, AmqpData, AmqpState,
  connection_class, queue_class, basic_class, method_start_ok, method_close, method_close_ok,
  method_consume, method_bind, method_publish, method_deliver,
}

unfoldable pub queue_event : Skb → ℕ → ℕ → AmqpEvent → AmqpEvent
queue_event skb data_off method_id e =
    if method_id == method_bind
    then record e { queue = (skb.load_bytes (u32 (data_off + 14)) e.queue).1 }
    else e

-- `AMQP_METHOD_DELIVER`, `AMQP_METHOD_CONSUME` and `AMQP_METHOD_PUBLISH`, each with what follows.
unfoldable pub deliver_event : AmqpEvent → AmqpEvent
deliver_event e = record e { count = u32 (e.count + 1) }

unfoldable pub consumed : AmqpType → AmqpType
consumed amqp_publish = amqp_publish
consumed t = amqp_consume

unfoldable pub consume_event : AmqpEvent → AmqpEvent
unfolding deliver_event consumed
consume_event e = deliver_event (record e { event_type = consumed e.event_type })

unfoldable pub publish_event : Skb → ℕ → AmqpEvent → AmqpEvent
unfolding consume_event
publish_event skb data_off e = consume_event (record e {
  event_type = amqp_publish;
  exchange = (skb.load_bytes (u32 (data_off + 14)) e.exchange).1;
})

unfoldable pub basic_event : Skb → ℕ → ℕ → AmqpEvent → AmqpEvent
unfolding publish_event
basic_event skb data_off method_id e =
    if method_id == method_publish
    then publish_event skb data_off e
    else if method_id == method_consume
    then consume_event e
    else if method_id == method_deliver
    then deliver_event e
    else e

unfoldable pub is_unknown : AmqpType → Bool
is_unknown amqp_unknown = true
is_unknown t = false

-- `none` where the function returns because of the protocol.
unfoldable pub amqp_addresses : ConnTuple → Option (ℕ × ℕ)
amqp_addresses t =
    if t.l3_proto == eth_p_ip
    then some (u32 t.saddr_l, u32 t.daddr_l)
    else if t.l3_proto == eth_p_ipv6
    then some (u32 t.saddr_h, u32 t.daddr_h)
    else none

-- The event of the entry is stored through the pointer.
unfoldable pub write_event : ConnTuple → AmqpData → AmqpEvent → AmqpState → AmqpState
unfolding write
write_event t entry e s = record s {
  amqp_filter_map = write s.amqp_filter_map t (record entry { event = e });
}

-- `AMQP_METHOD_CONNECTION_CLOSE` and `AMQP_METHOD_CONNECTION_CLOSE_OK`
unfoldable pub close_event : ℕ → ConnTuple → SkbInfo → AmqpData → AmqpEvent → AmqpState → AmqpState
unfolding amqp_addresses write_event is_unknown update delete
close_event now t info entry e s = elim (amqp_addresses t) [
  | none ↦ write_event t entry e s
  | some (src, dst) ↦
      let e' : AmqpEvent = record e { duration = u32 (sub64 now e.duration) } in
      let s' = write_event t entry e' s in
      elim (is_unknown e'.event_type) [
        | true ↦ s'
        | false ↦ record s' {
          amqp_trace_map = update s'.amqp_trace_map info.tcp_seq (record {
            dst_ip = dst;
            dst_port = bswap16 t.dport;
            src_ip = src;
            src_port = bswap16 t.sport;
            trace_event = e';
          });
          amqp_filter_map = delete s'.amqp_filter_map t;
        }
      ]
]

-- The label `AMQP_CONNECTION_CLASS`; its first method falls through to the closing ones, and the
-- clock is read twice then.
unfoldable pub connection_event :
    ℕ → ℕ → ConnTuple → SkbInfo → AmqpData → AmqpEvent → AmqpState → AmqpState
unfolding close_event write_event
connection_event now1 now2 t info entry e s =
    if entry.hdr.method_id == method_start_ok
    then close_event now2 t info entry (record e { duration = u32 now1 }) s
    else if entry.hdr.method_id == method_close || entry.hdr.method_id == method_close_ok
    then close_event now1 t info entry e s
    else write_event t entry e s

-- The switch on the class.
unfoldable pub amqp_class : ℕ → ℕ → Skb → ConnTuple → SkbInfo → AmqpData → AmqpState → AmqpState
unfolding queue_event basic_event connection_event
amqp_class now1 now2 skb t info entry s =
    let m = entry.hdr.method_id in
    if entry.hdr.class_id == queue_class
    then connection_event now1 now2 t info entry
        (basic_event skb info.data_off m (queue_event skb info.data_off m entry.event)) s
    else if entry.hdr.class_id == basic_class
    then connection_event now1 now2 t info entry (basic_event skb info.data_off m entry.event) s
    else if entry.hdr.class_id == connection_class
    then connection_event now1 now2 t info entry entry.event s
    else s

-- `socket__amqp_filter`, with two readings of the clock.
unfoldable pub socket_amqp_filter : ℕ → ℕ → Skb → AmqpState → AmqpState
unfolding read_conn_tuple_skb lookup amqp_class
socket_amqp_filter now1 now2 skb s = elim (read_conn_tuple_skb skb zero_tuple) [
  | none ↦ s
  | some (info, t) ↦ elim (lookup s.amqp_filter_map t) [
    | none ↦ s
    | some entry ↦ amqp_class now1 now2 skb t info entry s
  ]
]
