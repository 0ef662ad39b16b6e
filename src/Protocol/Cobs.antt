-- ===== src/Protocol/Cobs.antt =====
-- firmware/crates/binbook-diagnostic-protocol/src/cobs.rs: consistent overhead byte stuffing, which
-- takes the zeros out of a message and ends it with one.
pub mod Encode
pub mod Decode
pub mod Blocks
pub mod Layout
pub mod RoundTrip
mod Fuel
pub mod InPlace
