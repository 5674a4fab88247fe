-- ===== src/Rpc.antt =====
-- The RPC filter: ebpf/plugins/rpc/main.c and the tests for protocols that it calls.
pub mod Types
pub mod Mysql
pub mod Redis
pub mod Dubbo
pub mod Grpc
pub mod Amqp
pub mod Program
pub mod Others
pub mod Traces
pub mod Pairing
pub mod Judges
pub mod Owner
