-- ===== src/Engine/Sync.antt =====
-- engine/sync.go: the synchronisation server of a node, and the sessions of its peers.
pub mod Defs
pub mod Delivery
pub mod Sessions
