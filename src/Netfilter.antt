-- ===== src/Netfilter.antt =====
-- The probes on netfilter: ebpf/plugins/netfilter/main.c and ebpf/include/libiptables.h.
pub mod Types
pub mod Headers
pub mod Probes
pub mod Pairing
pub mod Tables
