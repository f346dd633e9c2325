-- ===== src/Engine/Worker.antt =====
-- The durable job queue: api/src/engine/worker.service.ts. The table ENGINE_JOBS is a list of rows,
-- a query over it a function of that list, and `V` stands for the JSON payloads, which the worker
-- never inspects. Times are milliseconds; the column UPDATED_AT, which nothing reads, is left out.
pub mod Defs
pub mod Queue
pub mod Order
pub mod Claim
pub mod History
pub mod Retry
pub mod Keys
pub mod Budget
