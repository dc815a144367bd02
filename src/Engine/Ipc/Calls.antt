-- ===== src/Engine/Ipc/Calls.antt =====
-- engine/ipc.go: the calls of `SeesawEngine` as one function.
use seesaw.Base.{Option, List}
use seesaw.Ha.Node.Defs.{HaState}
use seesaw.Healthcheck.Check.Defs as Check
use seesaw.Engine.HaManager.Defs as HaManager
use seesaw.Engine.Ipc.Context.{Context, AuthGroups}
use seesaw.Engine.Ipc.Server.{Server, Reply}
use seesaw.Engine.Ipc.Handlers

-- The calls, by their arguments.
pub data Call : Type 0 where
  failover ha_config ha_status healthchecks cluster_status config_status config_reload bgp_neighbors
        vlans vservers backends :
      Option Context → Call
  ha_update : Option (Option Context × HaManager.Status) → Call
  ha_state : Option (Option Context × HaState) → Call
  health_state : Option (Option Context × List Check.Notification) → Call
  config_source : Option (Option Context × Handlers.SourceName) → Call
  override_backend override_destination override_vserver : Option Handlers.OverrideArgs → Call

unfoldable pub serve : AuthGroups → Call → Server → Server × Reply
unfolding Handlers.failover Handlers.get_ha_config Handlers.ha_update Handlers.set_ha_state
    Handlers.get_ha_status Handlers.healthchecks Handlers.health_state Handlers.cluster_status
    Handlers.config_reload Handlers.config_source Handlers.bgp_neighbors Handlers.get_vlans
    Handlers.get_vservers Handlers.get_backends Handlers.override_backend
    Handlers.override_destination Handlers.override_vserver
serve auth (failover ctx) s = Handlers.failover auth ctx s
serve auth (ha_config ctx) s = Handlers.get_ha_config ctx s
serve auth (ha_update args) s = Handlers.ha_update args s
serve auth (ha_state args) s = Handlers.set_ha_state args s
serve auth (ha_status ctx) s = Handlers.get_ha_status auth ctx s
serve auth (healthchecks ctx) s = Handlers.healthchecks ctx s
serve auth (health_state args) s = Handlers.health_state args s
serve auth (cluster_status ctx) s = Handlers.cluster_status auth ctx s
serve auth (config_status ctx) s = Handlers.cluster_status auth ctx s
serve auth (config_reload ctx) s = Handlers.config_reload auth ctx s
serve auth (config_source args) s = Handlers.config_source auth args s
serve auth (bgp_neighbors ctx) s = Handlers.bgp_neighbors auth ctx s
serve auth (vlans ctx) s = Handlers.get_vlans auth ctx s
serve auth (vservers ctx) s = Handlers.get_vservers auth ctx s
serve auth (backends ctx) s = Handlers.get_backends ctx s
serve auth (override_backend args) s = Handlers.override_backend auth args s
serve auth (override_destination args) s = Handlers.override_destination auth args s
serve auth (override_vserver args) s = Handlers.override_vserver auth args s
