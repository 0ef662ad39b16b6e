-- ===== src/Storage.antt =====
-- firmware/crates/binbook-fw/src/storage_owner.rs and state_owner.rs: the owner of the storage card,
-- which runs the requests of the other tasks one after the other, and the task that keeps the
-- reading state through it.
pub mod Types
pub mod Mailbox
pub mod Tokens
pub mod Owner
pub mod Mounted
pub mod StateOwner
pub mod Scan
mod Tests
