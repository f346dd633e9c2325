-- ===== src/Engine/Outbox.antt =====
-- The dispatch of events to webhooks: api/src/engine/outbox.service.ts.
pub mod Defs
pub mod Dispatch
pub mod Wanted
