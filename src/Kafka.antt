-- ===== src/Kafka.antt =====
-- The Kafka filter, ebpf/plugins/kafka.
pub mod Types
pub mod Reader
pub mod Batches
pub mod Partitions
pub mod Request
pub mod Response
