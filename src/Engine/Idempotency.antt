-- ===== src/Engine/Idempotency.antt =====
-- Requests that may be sent twice: api/src/engine/idempotency.service.ts.
pub mod Defs
pub mod Replay
