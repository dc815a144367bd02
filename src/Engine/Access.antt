-- ===== src/Engine/Access.antt =====
-- engine/access.go: who may change a vserver.
pub mod Defs
pub mod Grants
