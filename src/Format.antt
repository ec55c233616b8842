-- ===== src/Format.antt =====
-- crates/clift-core/src/format: what the user pastes.
pub mod Instruction
mod Tests
