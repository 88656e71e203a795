-- ===== src/Runtime.antt =====
-- packages/backend/src/runtime: what the daemon's directory says of its work.
pub mod Activity
