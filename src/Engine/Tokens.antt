-- ===== src/Engine/Tokens.antt =====
-- The tables INSTANCE_TOKENS, PROCESS_INSTANCES, INSTANCE_EVENTS and the outbox, and their updates
-- under an optimistic lock: api/src/engine/engine.service.ts.
pub mod Defs
pub mod Lock
