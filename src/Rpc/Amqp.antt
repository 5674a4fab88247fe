-- ===== src/Rpc/Amqp.antt =====
-- The test for AMQP and its map: ebpf/include/amqp.h and amqp_defs.h. The switches fall through, so a
-- label is a function of what its code and the code below it do.
pub mod Methods
pub mod Events
pub mod Session
use erda_agent.Base.{
  ℕ, ◌+◌, List, [], ◌∷◌, ◌++◌, Option, none, some, Bool, true, false, not, ◌&&◌, ◌||◌, ltb, leb,
  ◌==◌, if◌then◌else◌, u32, sub64, bswap16, replicate, slice, le, codes, starts_with, Eq, nat_eq,
}
use erda_agent.Maps.{HashMap, lookup, update, delete, write}
use erda_agent.Packet.{
  Skb, SkbInfo, ConnTuple, zero_tuple, tuple_eq, read_conn_tuple_skb, eth_p_ip, eth_p_ipv6,
}
use erda_agent.Rpc.Types.{byte_at}

-- The structure is not packed: `channel` stands at 2, `size` at 4, `class_id` at 8.
pub record AmqpHeader : Type 0 where
  pub frame_type : ℕ
  pub channel : ℕ
  pub size : ℕ
  pub class_id : ℕ
  pub method_id : ℕ

-- `amqp_type`
pub data AmqpType : Type 0 where
  amqp_unknown amqp_publish amqp_consume : AmqpType

pub record AmqpEvent : Type 0 where
  pub queue : List ℕ
  pub exchange : List ℕ
  pub event_type : AmqpType
  pub count : ℕ
  pub duration : ℕ

pub record AmqpData : Type 0 where
  pub hdr : AmqpHeader
  pub event : AmqpEvent

pub record AmqpTrace : Type 0 where
  pub dst_ip : ℕ
  pub dst_port : ℕ
  pub src_ip : ℕ
  pub src_port : ℕ
  pub trace_event : AmqpEvent

-- The two maps of AMQP.
pub record AmqpState : Type 0 where
  pub amqp_filter_map : HashMap ConnTuple AmqpData
  pub amqp_trace_map : HashMap ℕ AmqpTrace

abbrev pub zero_event : AmqpEvent
zero_event = record {
  queue = replicate 10 0;
  exchange = replicate 10 0;
  event_type = amqp_unknown;
  count = 0;
  duration = 0;
}

abbrev pub connection_class : ℕ
connection_class = 10

abbrev pub queue_class : ℕ
queue_class = 50

abbrev pub basic_class : ℕ
basic_class = 60

abbrev pub method_start_ok : ℕ
method_start_ok = 11

abbrev pub method_close : ℕ
method_close = 50

abbrev pub method_close_ok : ℕ
method_close_ok = 51

abbrev pub method_consume : ℕ
method_consume = 20

abbrev pub method_bind : ℕ
method_bind = 20

abbrev pub method_publish : ℕ
method_publish = 40

abbrev pub method_deliver : ℕ
method_deliver = 60

unfoldable pub is_amqp_protocol_header : List ℕ → ℕ → Bool
is_amqp_protocol_header buf buf_size =
    if ltb buf_size 8 then false else starts_with (codes "AMQP") buf

-- `*((amqp_header *)buf)`
unfoldable pub amqp_header_of : List ℕ → AmqpHeader
amqp_header_of buf = record {
  frame_type = byte_at buf 0;
  channel = le (slice 2 2 buf);
  size = le (slice 4 4 buf);
  class_id = le (slice 8 2 buf);
  method_id = le (slice 10 2 buf);
}

-- The label `AMPQ_QUEUE_CLASS` of the switch on the class, and the two labels above it.
unfoldable pub queue_methods : ℕ → Bool
queue_methods method_id = method_id == method_bind

unfoldable pub basic_methods : ℕ → Bool
unfolding queue_methods
basic_methods method_id =
    method_id == method_publish
    || method_id == method_deliver
    || method_id == method_consume
    || queue_methods method_id

unfoldable pub connection_methods : ℕ → Bool
unfolding basic_methods
connection_methods method_id =
    method_id == method_close
    || method_id == method_close_ok
    || method_id == method_start_ok
    || basic_methods method_id

unfoldable pub is_tracked : AmqpHeader → Bool
unfolding connection_methods
is_tracked hdr =
    if hdr.class_id == connection_class
    then connection_methods hdr.method_id
    else if hdr.class_id == basic_class
    then basic_methods hdr.method_id
    else if hdr.class_id == queue_class
    then queue_methods hdr.method_id
    else false

-- The header is stored under the connection, next to the event that is there.
unfoldable pub store_header : ConnTuple → AmqpHeader → AmqpState → AmqpState
unfolding lookup update write
store_header t hdr s = elim (lookup s.amqp_filter_map t) [
  | none ↦ record s {
    amqp_filter_map = update s.amqp_filter_map t (record { hdr = hdr; event = zero_event });
  }
  | some old ↦
      let new : AmqpData = record old { hdr = hdr } in
      record s { amqp_filter_map = update (write s.amqp_filter_map t new) t new }
]

unfoldable pub is_amqp : ConnTuple → List ℕ → ℕ → AmqpState → Bool × AmqpState
unfolding is_amqp_protocol_header amqp_header_of is_tracked store_header
is_amqp t buf buf_size s =
    let hdr = amqp_header_of buf in
    if is_amqp_protocol_header buf buf_size
    then (true, s)
    else if ltb buf_size 11 || not (byte_at buf 0 == 1)
    then (false, s)
    else if is_tracked hdr
    then (true, store_header t hdr s)
    else (false, s)

-- What `AMPQ_QUEUE_CLASS` does before it falls through.
