-- ===== src/Savefile.antt =====
-- sf-pcap.c and pcap-common.c: the savefile format and its link-layer types.
pub mod Linktype
pub mod Bytes
pub mod Usb
pub mod Header
pub mod Packet
pub mod Dump
pub mod Masks
pub mod Fits
pub mod Reread
pub mod Foreign
pub mod Roundtrip
pub mod Ng
pub mod Offline
mod Tests
