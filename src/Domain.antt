-- ===== src/Domain.antt =====
-- crates/clift-core/src/domain: the value types, each of which holds what its constructor accepted.
pub mod BatchId
pub mod BatchNames
pub mod SafeName
pub mod Limits
pub mod RemotePath
mod Tests
