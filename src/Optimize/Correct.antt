-- ===== src/Optimize/Correct.antt =====
-- optimize.c: `opt_stmt` beside the machine of bpf_filter.c.
pub mod State
pub mod Store
pub mod Loads
pub mod Moves
pub mod Arith
pub mod Operations
pub mod Index
pub mod Statement
