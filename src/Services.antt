-- ===== src/Services.antt =====
-- packages/backend/src/modules: the services of the daemon that keep state of their own.
pub mod Embedding
pub mod Sessions
