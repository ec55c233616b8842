-- ===== src/Universal.antt =====
-- Universal Mode, crates/clift-core/src/universal: what a sealed object holds and what a token is.
pub mod Media
pub mod Bundle
pub mod Token
pub mod Crypto
pub mod Settings
pub mod Port
pub mod Publish
pub mod Samples
mod Tests
