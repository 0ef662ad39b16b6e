-- ===== src/Checksum.antt =====
-- The checksums of the transfer path.
pub mod Crc32
