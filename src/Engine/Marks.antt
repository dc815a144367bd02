-- ===== src/Engine/Marks.antt =====
-- engine/core.go: the allocator of firewall marks.
pub mod Defs
pub mod Allocation
