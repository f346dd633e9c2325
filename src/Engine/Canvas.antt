-- ===== src/Engine/Canvas.antt =====
-- The canvas as the interpreter sees it, and the choice of the flow that a token takes:
-- api/src/engine/engine.service.ts.
pub mod Defs
pub mod Project
pub mod Projected
pub mod Condition
pub mod Flow
pub mod Choice
