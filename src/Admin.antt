-- ===== src/Admin.antt =====
-- internal/admin: the administration interface.
pub mod LoginGuard
pub mod SessionManager
pub mod StatsReset
