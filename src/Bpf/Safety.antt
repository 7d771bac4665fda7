-- ===== src/Bpf/Safety.antt =====
-- bpf/net/bpf_filter.c: `bpf_filter` on the programs of `bpf_validate`.
pub mod Needs
pub mod Steps
pub mod Program
pub mod Forward
pub mod Gap
pub mod Words
pub mod Ends
