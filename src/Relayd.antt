-- ===== src/Relayd.antt =====
-- The relay service, crates/clift-relayd.
pub mod Address
pub mod RateLimit
pub mod Store
pub mod Server
mod Tests
