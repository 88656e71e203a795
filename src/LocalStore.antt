-- ===== src/LocalStore.antt =====
-- packages/engine/src/local-store: the installed Packs and what they offer.
pub mod Canonical
pub mod SourcePath
pub mod Effective
