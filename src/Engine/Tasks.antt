-- ===== src/Engine/Tasks.antt =====
-- The life of a user task and of an instance: claimTask, unclaimTask, reassignTask, suspendInstance
-- and resumeInstance of api/src/engine/engine.service.ts.
pub mod Defs
pub mod Race
pub mod Rights
pub mod Later
pub mod Suspension
