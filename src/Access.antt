-- ===== src/Access.antt =====
-- Who may do what in the API: api/src/permissions and api/src/auth.
pub mod Permissions
pub mod Window
pub mod Throttle
pub mod Sessions
