-- ===== src/Bpf.antt =====
-- bpf/net/bpf_filter.c and pcap/bpf.h: the packet filter machine and its validator.
pub mod Insn
pub mod Filter
pub mod Validate
pub mod Packet
pub mod Safety
pub mod Install
mod Tests
