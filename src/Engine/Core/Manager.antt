-- ===== src/Engine/Core/Manager.antt =====
-- engine/core.go: what `manager` does on a notification of a cluster configuration, with `thisNode`,
-- `haConfig` and `updateARPMap`. The goroutines that it starts for `updateVservers` are steps of their own,
-- each of which may come at any later time.
use seesaw.Base.{
  ℕ, suc, Bool, false, not, ◌&&◌, Option, none, some, List, [], ◌∷◌, ◌++◌, ◌==◌, if◌then◌else◌,
  lookup, insert, ◌+◌, zero,
}
use seesaw.Ha.Node.Defs.{HaState, disabled, same_state}
use seesaw.Engine.HaManager.Defs as HaManager
use seesaw.Engine.HaManager.Defs.{HaManager}
use seesaw.Engine.Access.Defs as Access
use seesaw.Engine.Access.Defs.{VserverUserAccess, new_vserver_user_access}
use seesaw.Engine.Sync.Defs.{SyncServer, config_update, notify}
use seesaw.Engine.Vserver.Data.{Env}
use seesaw.Engine.Vserver.Config.Data.{Vip, Config, anycast_vip, same_vip_type}
use seesaw.Engine.Core.Defs.{
  Vlan, Cluster, Engine, update_vservers, update_vlans, delete_vlans, shutdown_vservers,
}

-- `seesaw.Node`, and of the node of `e.config` its addresses only.
pub record Node : Type 0 where
  pub ipv4_addr : Option ℕ
  pub ipv6_addr : Option ℕ
  pub state : HaState
  pub vservers_enabled : Bool

-- `e.config`; `cluster_vip` is the number of `ClusterVIP.IPv4Addr`, `nil` included.
pub record Settings : Type 0 where
  pub node_ipv4 : Option ℕ
  pub node_ipv6 : Option ℕ
  pub cluster_vip : ℕ
  pub use_vmac : Bool

-- `access` is what the access maps read of the configuration.
pub record Notification : Type 0 where
  pub cluster : Cluster
  pub access : Access.Cluster
  pub nodes : List Node
  pub metadata_only : Bool

-- `starting` is the number of goroutines for `updateVservers` that have not run yet.
pub record State : Type 0 where
  pub engine : Engine
  pub sync_server : SyncServer
  pub vserver_access : VserverUserAccess
  pub ha_manager : HaManager
  pub arp_map : List (ℕ × List ℕ)
  pub cluster : Cluster
  pub starting : ℕ

-- `ip != nil && ip.Equal(other)`
abbrev pub same_ip : Option ℕ → Option ℕ → Bool
same_ip (some ip) (some other) = ip == other
same_ip _ _ = false

abbrev pub find_ipv4 : Option ℕ → List Node → Option Node
find_ipv4 ip [] = none
find_ipv4 ip (n ∷ nodes) = if same_ip ip n.ipv4_addr then some n else find_ipv4 ip nodes

abbrev pub find_ipv6 : Option ℕ → List Node → Option Node
find_ipv6 ip [] = none
find_ipv6 ip (n ∷ nodes) = if same_ip ip n.ipv6_addr then some n else find_ipv6 ip nodes

-- `thisNode`, once a cluster is loaded; `none` is its error.
unfoldable pub this_node : Settings → List Node → Option Node
this_node settings nodes = elim (find_ipv4 settings.node_ipv4 nodes) [
  | some n ↦ some n
  | none ↦ find_ipv6 settings.node_ipv6 nodes
]

-- `Enabled` of `haConfig`
abbrev pub ha_enabled : Node → Bool
ha_enabled n = not (same_state n.state disabled)

-- The ARP map has numbers for the names of interfaces: 0 for `e.config.LBInterface`, and the id plus one
-- for the interface of a VLAN.
abbrev pub addresses_at : ℕ → List (ℕ × List ℕ) → List ℕ
addresses_at i arp_map = elim (lookup i arp_map) [ none ↦ [] | some ips ↦ ips ]

abbrev pub add_address : ℕ → ℕ → List (ℕ × List ℕ) → List (ℕ × List ℕ)
add_address i ip arp_map = insert i (addresses_at i arp_map ++ ip ∷ []) arp_map

-- `contains vlan ip`: the VLAN has an IPv4 network, and it contains the address; `is_ipv4` is that
-- `To4` returns an address.
module _ (contains : Vlan → ℕ → Bool) (is_ipv4 : ℕ → Bool) where
  -- The loop over `e.vlans`.
  abbrev pub interface_of : List (ℕ × Vlan) → ℕ → ℕ
  interface_of [] ip = 0
  interface_of ((k, vlan) ∷ vlans) ip =
      if contains vlan ip then suc vlan.id else interface_of vlans ip

  abbrev pub is_announced : Vip → Bool
  is_announced vip = not (same_vip_type vip.type anycast_vip) && is_ipv4 vip.ip

  -- The loop over the VIPs of a vserver.
  unfoldable pub add_vips : List (ℕ × Vlan) → List Vip → List (ℕ × List ℕ) → List (ℕ × List ℕ)
  add_vips vlans [] arp_map = arp_map
  add_vips vlans (vip ∷ vips) arp_map =
      add_vips vlans vips (
        if is_announced vip
        then add_address (interface_of vlans vip.ip) vip.ip arp_map
        else arp_map)

  unfoldable pub add_vservers :
      List (ℕ × Vlan) → List (ℕ × Config) → List (ℕ × List ℕ) → List (ℕ × List ℕ)
  unfolding add_vips
  add_vservers vlans [] arp_map = arp_map
  add_vservers vlans ((name, config) ∷ configs) arp_map =
      add_vservers vlans configs (add_vips vlans config.vips arp_map)

  -- `updateARPMap`
  unfoldable pub update_arp_map : Settings → List (ℕ × Vlan) → List (ℕ × Config) → List (ℕ × List ℕ)
  unfolding add_vservers
  update_arp_map settings vlans configs =
      let arp_map = insert 0 (settings.cluster_vip ∷ []) [] in
      if settings.use_vmac then arp_map else add_vservers vlans configs arp_map

  module _ (env : Env) (settings : Settings) where
    -- What follows the test of `VserversEnabled`.
    unfoldable pub reload : State → Notification → Bool → State
    unfolding update_arp_map
    reload s n vservers_enabled =
        if vservers_enabled
        then (let engine = update_vlans n.cluster s.engine in
            record s {
              engine = engine;
              starting = s.starting + 1;
              arp_map = update_arp_map settings engine.vlans n.cluster.vservers;
            })
        else record s { engine = delete_vlans (shutdown_vservers env s.engine) }

    -- The notification's case in `manager`. `newVserverUserAccess` returns no error, and both errors of
    -- the local node end the case.
    unfoldable pub handle_notification : State → Notification → ℕ → State
    unfolding this_node reload
    handle_notification s n now =
        let read = record s {
          sync_server =
              notify s.sync_server (record { type = config_update; time = now; payload = 0 });
          vserver_access = new_vserver_user_access n.access;
          cluster = n.cluster;
        } in
        if n.metadata_only then read else elim (this_node settings n.nodes) [
          | none ↦ read
          | some node ↦
              let ha =
                (if ha_enabled node
                  then HaManager.enable read.ha_manager now
                  else HaManager.disable read.ha_manager now) in
              reload (record read { ha_manager = ha }) n node.vservers_enabled
        ]

-- A goroutine for `updateVservers` reads the cluster when it runs.
unfoldable pub run_update : (Config → Config → Bool) → Env → State → State
run_update deep_equal env s = elim (s.starting) [
  | zero ↦ s
  | suc n ↦ record s { starting = n; engine = update_vservers deep_equal env s.cluster s.engine }
]
