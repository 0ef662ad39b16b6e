-- ===== src/Transfer.antt =====
-- The bulk transfer of books between host and device.
pub mod Slots
pub mod Upload
pub mod Readback
pub mod Timeout
pub mod Leases
mod Tests
