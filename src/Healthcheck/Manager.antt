-- ===== src/Healthcheck/Manager.antt =====
-- healthcheck/core.go: the branch of `manager` that takes a new map of configurations.
pub mod Defs
pub mod Sync
