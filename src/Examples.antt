-- ===== src/Examples.antt =====
-- Concrete inputs at which the theorems apply.
mod Worker
mod Tokens
mod Gateway
mod Canvas
mod Mapping
mod Outbox
mod Permissions
mod Sessions
mod Feel
mod Timers
mod Idempotency
mod Messages
