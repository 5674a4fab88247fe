-- ===== src/Examples/Amqp.antt =====
-- A connection of AMQP through its filter.
use erda_agent.Base.{ℕ, nat_eq, ◌+◌, ◌≡◌, refl, none, some, arith, [], ◌∷◌}
use erda_agent.Maps.{empty, lookup}
use erda_agent.Packet.{tuple_eq, read_conn_tuple_skb}
use erda_agent.Packet.Bytes.{of_bytes}
use erda_agent.Rpc.Amqp.{
  AmqpState, AmqpTrace, connection_class, basic_class, method_start_ok, method_publish,
  method_close,
}
use erda_agent.Rpc.Amqp.Session.{
  AmqpPacket, IsMethod, IsSession, amqp_packet, amqp_packets, amqp_packets-IsSession,
}
use erda_agent.Examples.Data.{packet_of, request_tuple}

-- A packet with this method at a time.
abbrev method_packet : (now class method : ℕ) → AmqpPacket
method_packet now class method = record {
  now1 = now;
  now2 = now + 1;
  hdr = record { frame_type = 1; channel = 1; size = 4; class_id = class; method_id = method };
  skb = of_bytes (packet_of 1 2 "logs\0\0\0\0\0\0\0\0\0\0\0\0\0\0\0\0\0\0\0\0");
}

unfoldable carries_method :
    (now class method : ℕ) → IsMethod request_tuple class method (method_packet now class method)
unfolding of_bytes read_conn_tuple_skb
carries_method now class method = record {
  info = record { data_off = 54; data_end = 14; tcp_seq = 0; tcp_flags = 0 };
  tuple_read = refl;
  class_eq = refl;
  method_eq = refl;
}

abbrev no_connections : AmqpState
no_connections = record { amqp_filter_map = empty 1024; amqp_trace_map = empty 1024 }

amqp_packets-IsSession_example :
    let published = method_packet 8 basic_class method_publish in
    let s1 =
      amqp_packet request_tuple (method_packet 3 connection_class method_start_ok) no_connections in
    let s' =
      amqp_packet request_tuple
        (method_packet 9 connection_class method_close)
        (amqp_packets request_tuple (published ∷ published ∷ []) s1) in
    (lookup s'.amqp_filter_map request_tuple ≡ none)
    × ((trace : AmqpTrace) × (lookup s'.amqp_trace_map 0 ≡ some trace)
        × IsSession request_tuple 2 3 4 9 trace)
unfolding lookup carries_method
amqp_packets-IsSession_example =
    let published = method_packet 8 basic_class method_publish in
    let publishes = carries_method 8 basic_class method_publish in
    amqp_packets-IsSession request_tuple (method_packet 3 connection_class method_start_ok)
      published (method_packet 9 connection_class method_close) (published ∷ []) no_connections
      (carries_method 9 connection_class method_close)
      (carries_method 3 connection_class method_start_ok) publishes (publishes, tt) refl refl
      (omega arith) (omega arith)
