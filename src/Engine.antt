-- ===== src/Engine.antt =====
-- The workflow engine of the API: api/src/engine.
pub mod Worker
pub mod Canvas
pub mod Tokens
pub mod Tasks
pub mod Gateway
pub mod Mapping
pub mod Outbox
pub mod Timers
pub mod Idempotency
pub mod Messages
