-- ===== src/Config.antt =====
-- internal/config: the vendors that a configuration names.
pub mod Vendors
