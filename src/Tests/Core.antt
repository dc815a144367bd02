-- ===== src/Tests/Core.antt =====
-- engine/core.go: an engine with one vserver, whose VLAN changes.
use seesaw.Base.{◌≡◌, refl, Bool, true, false, none, some, [], ◌∷◌, ◌==◌, lookup, arith}
use seesaw.Engine.Vserver.Data.{Env}
use seesaw.Engine.Vserver.Events.{override_disable, override_enable}
use seesaw.Engine.Vserver.Config.Data.{Config, new_vserver, unicast_vip}
use seesaw.Engine.Vserver.Config.Vips.{unconfigure_vips}
use seesaw.Engine.Core.Defs.{
  Override, destination_override, Running, Cluster, Engine, outdated, update_vlans, update_vservers,
}
use seesaw.Engine.Core.Reload.{core_of}
use seesaw.Engine.Core.Vlans.{update_vservers-update_vlans}

program : Unit {0}
unfolding new_vserver outdated
program = tt

abbrev env : Env
env = record { is_anycast = λ ip. false; anycast_enabled = false; meets = λ up all watermark. true }

abbrev config : Config
config = record {
  name = 3;
  ipv4_addr = some 50;
  ipv6_addr = none;
  entries = [];
  backends = [];
  healthchecks = [];
  vips = record { ip = 50; type = unicast_vip } ∷ [];
  enabled = true;
  use_fwm = false;
}

abbrev same_name : Config → Config → Bool
same_name a b = a.name == b.name

same_name_refl : (c : Config) → same_name c c ≡ true
same_name_refl c = ground arith

abbrev web : Running
web = record {
  vserver = record (new_vserver (record { marks = [] })) {
    config = some config;
    vips = config.vips;
  };
  updates = [];
  overrides = [];
}

abbrev engine : Engine
engine = record {
  vservers = (3, web) ∷ [];
  overrides = [];
  vlans = (10, record { id = 10; host = 1 }) ∷ [];
  vlan_ops = [];
  fwm_alloc = record { marks = [] };
}

abbrev cluster : Cluster
cluster = record { vservers = (3, config) ∷ []; vlans = (10, record { id = 10; host = 2 }) ∷ [] }

update_vservers-update_vlans_example :
    core_of
      (lookup 3 (update_vservers same_name env cluster (update_vlans cluster engine)).vservers)
    ≡ some (unconfigure_vips web.vserver, [])
unfolding program
update_vservers-update_vlans_example =
    update_vservers-update_vlans same_name env cluster engine 3 web config same_name_refl (refl, tt)
      refl refl refl refl refl

-- The same destination of two vservers.
abbrev first : Override
first = destination_override 3 7 override_disable

abbrev second : Override
second = destination_override 4 7 override_enable
