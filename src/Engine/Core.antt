-- ===== src/Engine/Core.antt =====
-- engine/core.go: what the engine does to its vservers and VLAN interfaces when the configuration of the
-- cluster changes, and how it distributes overrides. The goroutine of a vserver takes what is in its
-- queues later, by the loop of Engine/Vserver/Config/Run.
pub mod Defs
pub mod Reload
pub mod Overrides
pub mod Vlans
pub mod Manager
pub mod Notified
