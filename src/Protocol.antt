-- ===== src/Protocol.antt =====
-- firmware/crates/binbook-diagnostic-protocol: the serial protocol between the host and the device.
pub mod Types
pub mod Cobs
pub mod Crc16
pub mod Frame
mod Limits
mod Tests
