-- ===== src/Engine/Messages.antt =====
-- Who waits for a message: api/src/engine/message-subscription.service.ts.
pub mod Defs
pub mod Deliveries
