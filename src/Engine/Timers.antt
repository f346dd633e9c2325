-- ===== src/Engine/Timers.antt =====
-- Timers in the database: api/src/engine/timer-scheduler.service.ts.
pub mod Defs
pub mod Claim
pub mod Backfill
pub mod Ticks
