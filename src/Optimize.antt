-- ===== src/Optimize.antt =====
-- optimize.c: value numbering and constant folding of the statements of a block.
pub mod Values
pub mod Stmt
pub mod Meaning
pub mod Intern
pub mod Correct
pub mod Unsound
pub mod Start
pub mod Block
mod Tests
