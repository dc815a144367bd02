-- ===== src/Engine/SyncClient.antt =====
-- engine/sync.go: the connection of the synchronisation client to its peer, and its loop.
pub mod Defs
pub mod References
pub mod Loop
pub mod Deadlock
