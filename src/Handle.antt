-- ===== src/Handle.antt =====
-- pcap.c: the capture handle, and the names of the types that it can be set to.
pub mod Text
pub mod Choices
pub mod Lookup
pub mod Case
pub mod Back
pub mod State
pub mod Types
pub mod Calls
pub mod Settled
pub mod Datalink
mod Tests
