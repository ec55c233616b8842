-- ===== src/Config.antt =====
-- crates/clift-core/src/config: the settings. units.rs is modelled.
pub mod Units
