-- ===== src/Savefile/Ng.antt =====
-- sf-pcap-ng.c: the reader of pcap-ng savefiles.
pub mod Answer
pub mod Block
pub mod Idb
pub mod Interface
pub mod Open
pub mod Next
pub mod Returns
pub mod Known
pub mod Kept
pub mod Added
pub mod Grown
pub mod Steps
pub mod Sound
pub mod Opened
pub mod Scaling
pub mod Written
pub mod Reread
pub mod Sequence
pub mod Second
pub mod Failed
pub mod Formats
mod Tests
