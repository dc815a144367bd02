-- ===== src/Engine/Config.antt =====
-- engine/config/notifier.go: where a configuration comes from, when the engine is notified of it, and
-- how many vservers may come or go at once.
pub mod Limit
pub mod Notifier
pub mod Rounds
pub mod Checks
pub mod Peers
pub mod Protos
pub mod Names
pub mod Nodes
pub mod Priorities
pub mod Archive
pub mod Retention
pub mod Vservers
pub mod Entries
