-- ===== src/Engine/Mapping.antt =====
-- Paths into the variable bag, the mappings of service tasks, variable expressions and the
-- assignment of user tasks: api/src/engine/engine.service.ts.
pub mod Defs
pub mod Paths
pub mod Projection
pub mod Assignment
