-- ===== src/Tests/Manager.antt =====
-- engine/core.go: an engine that is notified of a configuration with two VLANs and two nodes.
use seesaw.Base.{
  ◌≡◌, refl, Bool, true, false, ◌&&◌, none, some, [], ◌∷◌, ◌==◌, ◌+◌, ℕ, List, leb, lookup, is_some,
}
use seesaw.Ha.Node.Defs.{backup, disabled}
use seesaw.Engine.HaManager.Defs.{new_ha_manager}
use seesaw.Engine.Sync.Defs.{new_sync_server}
use seesaw.Engine.Vserver.Data.{Env}
use seesaw.Engine.Vserver.Config.Data.{Config, anycast_vip, unicast_vip}
use seesaw.Engine.Core.Defs.{Vlan}
use seesaw.Engine.Core.Manager.{
  Node, Settings, Notification, State, handle_notification, run_update, this_node,
}
use seesaw.Engine.Core.Notified.{handle_notification-runs, run_update-late}

program : Unit {0}
unfolding this_node
program = tt

abbrev env : Env
env = record { is_anycast = λ ip. false; anycast_enabled = false; meets = λ up all watermark. true }

-- A VLAN contains a hundred addresses from its host on; the addresses below 1000 are IPv4 addresses.
abbrev contains : Vlan → ℕ → Bool
contains vlan ip = leb vlan.host ip && leb ip (vlan.host + 99)

abbrev is_ipv4 : ℕ → Bool
is_ipv4 ip = leb ip 999

abbrev same_name : Config → Config → Bool
same_name a b = a.name == b.name

abbrev web : Config
web = record {
  name = 3;
  ipv4_addr = some 150;
  ipv6_addr = none;
  entries = [];
  backends = [];
  healthchecks = [];
  vips =
      record { ip = 150; type = unicast_vip }
      ∷ record { ip = 160; type = anycast_vip }
      ∷ record { ip = 250; type = unicast_vip }
      ∷ record { ip = 1150; type = unicast_vip }
      ∷ [];
  enabled = true;
  use_fwm = false;
}

abbrev vlans : List (ℕ × Vlan)
vlans = (10, record { id = 10; host = 100 }) ∷ (20, record { id = 20; host = 300 }) ∷ []

abbrev settings : Settings
settings = record { node_ipv4 = some 7; node_ipv6 = none; cluster_vip = 9; use_vmac = false }

abbrev east : Node
east = record { ipv4_addr = some 7; ipv6_addr = none; state = disabled; vservers_enabled = true }

abbrev west : Node
west = record east { ipv4_addr = some 8; state = backup; vservers_enabled = false }

abbrev notification : Notification
notification = record {
  cluster = record { vservers = (3, web) ∷ []; vlans = vlans };
  access = record { vservers = []; access_groups = [] };
  nodes = west ∷ east ∷ [];
  metadata_only = false;
}

abbrev started : State
started = record {
  engine = record {
    vservers = [];
    overrides = [];
    vlans = [];
    vlan_ops = [];
    fwm_alloc = record { marks = [] };
  };
  sync_server = new_sync_server;
  vserver_access = [];
  ha_manager = new_ha_manager true 100 0;
  arp_map = [];
  cluster = record { vservers = []; vlans = [] };
  starting = 0;
}

handle_notification-runs_example :
    let s = handle_notification contains is_ipv4 env settings started notification 5 in
    (s.starting ≡ 1)
    × (is_some (lookup 3 (run_update same_name env s).engine.vservers)
        ≡ is_some (lookup 3 notification.cluster.vservers))
unfolding program
handle_notification-runs_example =
    handle_notification-runs contains is_ipv4 env settings same_name started notification 5 3 refl

abbrev withdrawn : Notification
withdrawn = record notification { nodes = west ∷ record east { vservers_enabled = false } ∷ [] }

run_update-late_example :
    let s =
      handle_notification contains is_ipv4 env settings
        (record started { starting = 1 })
        withdrawn
        5 in
    (is_some (lookup 3 s.engine.vservers) ≡ false)
    × (is_some (lookup 3 (run_update same_name env s).engine.vservers)
        ≡ is_some (lookup 3 withdrawn.cluster.vservers))
unfolding program
run_update-late_example =
    run_update-late contains is_ipv4 env settings same_name (record started { starting = 1 })
      withdrawn 0 5 3 refl refl
