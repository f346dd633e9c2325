-- ===== src/Engine/Gateway.antt =====
-- Parallel and inclusive gateways: the split and the join of advanceToken in
-- api/src/engine/engine.service.ts.
pub mod Defs
pub mod Join
pub mod Nested
pub mod Split
pub mod Selection
