-- ===== src/Packbits.antt =====
-- The PackBits codec of page data: the compressor of the host and the streaming decompressor that
-- the device uses, in two crates that share no code.
pub mod Encode
pub mod Decode
pub mod RoundTrip
pub mod Exact
mod Tests
