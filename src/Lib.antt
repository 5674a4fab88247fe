-- ===== src/Lib.antt =====
-- The eBPF programs of the agent: the filters for Kafka, HTTP and RPC, and the
-- probes on sockets, netfilter and processes.
--
-- A socket filter sees the packets of every connection. The program `socket__kafka_filter`
-- (ebpf/plugins/kafka/main.c) reads a packet's headers into a connection tuple, takes the packet as
-- part of a response that is being parsed, as the beginning of a response to a request in flight,
-- or as a request. A Produce is handed on at once with the number of its records; a Fetch waits in
-- the map `kafka_in_flight`, under the flipped tuple, for its response. The response is parsed by
-- the program `socket__kafka_response_parser`, which is reached by a tail call, works on a limited
-- number of partitions and batches, and calls itself for the rest. What is left over at the end of
-- a packet is kept in a context in the map `kafka_response`. What was counted goes to the map
-- `kafka_event` and to the batches of ebpf/include/events.h, whose map of pages
-- is declared with one entry and has none when the program is loaded.
--
-- The program `socket__filter_package` (ebpf/plugins/http/main.c) keeps a request from a watched
-- address in `http_processing_map` until its response comes, and then puts both into `metrics_map`.
-- The program `rpc__filter_package` (ebpf/plugins/rpc/main.c) tests a packet for Dubbo, MySQL, Redis,
-- AMQP and gRPC in this order, keeps a request in `grpc_request_map` until its response comes, and
-- puts both into `grpc_trace_map`; AMQP goes to a program of its own by a tail call.
-- The probes of ebpf/include/sock.h see the calls of `tcp_sendmsg`, `tcp_recvmsg` and `tcp_close`
-- and note which process owns a connection; the filters that include the file look owners up.
-- The probes of ebpf/plugins/netfilter/main.c note a task at the entry of `nf_nat_setup_info` and
-- `ipt_do_table`, and at the return file the tuples of the connection or an event of the packet; the
-- probes of oomkillprocesser and kprobesysctl note the current process.
--
-- Which file models what:
--   Base                        words of 8 to 64 bits as natural numbers with their wrap-around
--                               written out, lists indexed by native numbers, Boolean tests
--   Maps, Maps/Laws             BPF hash maps: lookup, update (`BPF_ANY`, `BPF_NOEXIST`), delete,
--                               a store through a pointer, the limit on entries
--   Packet                      `conn_tuple_t`, `sock_key`, `skb_info_t` and `read_conn_tuple_skb`
--                               of ebpf/include/protocol.h; the kernel's load functions are the
--                               fields of `Skb`
--   Packet/Bytes                a packet with known bytes, as the instance of `Skb`
--   Packet/Tuple                ebpf/include/port_range.h
--   Packet/Buffer               ebpf/include/big_endian.h and read_into_buffer.h
--   Events                      ebpf/include/events.h and events-types.h
--   Kafka/Types                 ebpf/include/kafka_types.h and kafka_defs.h
--   Kafka/Reader                main.c: `__read_with_remainder` to `read_varint_or_s32`
--   Kafka/Batches               main.c: `kafka_continue_parse_response_record_batches_loop`
--   Kafka/Partitions            main.c: `kafka_continue_parse_response_partition_loop`
--   Kafka/Request               ebpf/include/kafka_classification.h
--   Kafka/Request/Process       main.c: `kafka_process` up to the stores that record a request
--   Kafka/Response              main.c: the maps' state, `kafka_batch_enqueue_wrapper` and
--                               `kafka_continue_parse_response`
--   Kafka/Response/Program      main.c: the two programs, `kafka_process_response`,
--                               `kafka_process_new_response` and the end of `kafka_process`
--   Http                        ebpf/plugins/http/main.c, protocols/http/http.h and types.h
--   Sock                        ebpf/include/sock.h
--   Rpc/Types                   ebpf/include/protocol.h: `rpc_package_t`, `__init_buffer`
--   Rpc/Mysql, Rpc/Dubbo,       ebpf/include/protocol.h: the tests for MySQL and Dubbo, and `judge_rpc`
--   Rpc/Grpc                    with what it calls
--   Rpc/Redis, Rpc/Amqp         ebpf/include/redis.h; amqp.h and amqp_defs.h
--   Rpc/Amqp/Events             ebpf/plugins/rpc/main.c: `socket__amqp_filter`
--   Rpc/Program                 ebpf/plugins/rpc/main.c: `rpc__filter_package`
--   Netfilter/Types, Headers    ebpf/include/libiptables.h
--   Netfilter/Probes            ebpf/plugins/netfilter/main.c
--   Kprobes                     ebpf/plugins/oomkillprocesser/main.c and kprobesysctl/main.c
--   Examples                    each theorem at a concrete input
-- The other files below these hold proofs about the file above them.
--
-- How the code is written down: a function that changes what a pointer refers to returns the new
-- value; an offset that is passed by reference is returned with the value read. A switch with
-- fallthrough is a function for each label, which ends by calling the next label's function. The
-- loops of the parsers are recursion on the rounds that are left, 10, the bound of the source's
-- loops; what the code does when the bound is reached (`RET_LOOP_END`) is written out, so nothing
-- depends on the bound being enough. A tail call is the called program on the number of tail calls
-- that are left; with none left, it returns as in the kernel. A signed number is its bit pattern,
-- with the sign test written out. The results of the clock are numbered; the limits of the
-- ephemeral ports and the layout of a batch are parameters. The byte order is that of a
-- little-endian machine.
--
-- Not modelled: the copies of libbpf, Cilium's memory functions and kernel headers; the user space
-- agent, which is written in Go. Programs that run at the same time on two CPUs and share a map's
-- entry are not modelled either: a program's run is one step.
pub mod Base
pub mod Maps
pub mod Packet
pub mod Events
pub mod Kafka
pub mod Http
pub mod Sock
pub mod Rpc
pub mod Netfilter
pub mod Kprobes
pub mod Examples
