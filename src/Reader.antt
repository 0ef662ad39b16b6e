-- ===== src/Reader.antt =====
-- The reader's own state machines, of firmware/crates/binbook-fw: the keys, the saved reading
-- state and the menu.
pub mod Power
pub mod State
pub mod Menu
pub mod Input
mod Tests
