-- ===== src/Format.antt =====
-- The BinBook file format of crates/binbook-core: its records on the wire and their checks.
pub mod Wire
pub mod Types
pub mod Strings
pub mod Chunk
pub mod Transition
pub mod Navigation
pub mod Header
pub mod Page
pub mod Sections
mod Tests
