-- ===== src/Engine.antt =====
-- The engine: virtual servers, firewall marks and the synchronisation of nodes.
pub mod Vserver
pub mod Marks
pub mod Sync
pub mod HaManager
pub mod Healthchecks
pub mod Access
pub mod SyncClient
pub mod Core
pub mod Config
pub mod Ipc
