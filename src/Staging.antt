-- ===== src/Staging.antt =====
-- crates/clift-core/src/staging: where files are put on the remote host.
pub mod Inbox
pub mod Locate
pub mod Batch
pub mod Atomic
pub mod Clean
mod Tests
