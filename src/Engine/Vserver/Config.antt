-- ===== src/Engine/Vserver/Config.antt =====
-- engine/vserver.go: how a vserver takes on a configuration. The services, destinations and checks are
-- those of `Vserver`; a check is named by a number, as by a pointer, and the map of the checks leads
-- from a key to it. `none` is the end of the process, by `log.Fatal` or by a panic.
pub mod Data
pub mod Expand
pub mod Checks
pub mod Vips
pub mod Equal
pub mod Services
pub mod Dests
pub mod Update
pub mod Run
pub mod Start
pub mod Settles
pub mod Links
pub mod Pointers
pub mod Families
pub mod Disabled
pub mod Deletion
