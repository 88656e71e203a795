-- ===== src/Format.antt =====
-- packages/format: the rules of a Knowledge Pack.
pub mod Cycle
pub mod Validate
pub mod Localization
