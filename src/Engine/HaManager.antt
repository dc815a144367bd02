-- ===== src/Engine/HaManager.antt =====
-- engine/ha.go: the HA state of an engine, and the role that it takes on with it.
pub mod Defs
pub mod Roles
pub mod Requests
