-- ===== src/Lifecycle.antt =====
-- packages/engine/src/local-store/{lifecycle,storage}: how a change of the installed Packs reaches
-- the manifest file and the SQLite file together, and how an interrupted change is recovered.
pub mod Store
pub mod Recovery
pub mod Install
pub mod MutationLock
pub mod Notifications
pub mod RevisionLog
pub mod Rows
