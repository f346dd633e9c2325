-- ===== src/Access/Permissions.antt =====
-- Grants on processes: api/src/permissions/process-permissions.service.ts.
pub mod Defs
pub mod Effective
pub mod Visible
pub mod Grants
pub mod Trail
pub mod History
pub mod Change
