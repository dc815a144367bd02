-- ===== src/Engine/Core/Defs.antt =====
-- engine/core.go: `updateVservers`, `updateVLANs`, `handleOverride` and their counterparts.
use seesaw.Base.{
  ℕ, Bool, true, false, ◌&&◌, none, some, List, [], ◌∷◌, ◌++◌, ◌==◌, ltb, if◌then◌else◌, length,
  lookup, insert, remove, is_some,
}
use seesaw.Engine.Marks.Defs.{MarkAllocator}
use seesaw.Engine.Vserver.Data.{Env}
use seesaw.Engine.Vserver.Events.{OverrideState, override_default}
use seesaw.Engine.Vserver.Config.Data.{Config, Configured, VserverOverride, new_vserver}
use seesaw.Engine.Vserver.Config.Vips.{unconfigure_vips}
use seesaw.Engine.Vserver.Config.Run.{quit}

-- `seesaw.Host` of a VLAN is a number that tells it from any other one.
pub record Vlan : Type 0 where
  pub id : ℕ
  pub host : ℕ

pub data Override : Type 0 where
  vserver_override : VserverOverride → Override
  backend_override : (hostname : ℕ) → OverrideState → Override
  destination_override : (vserver destination : ℕ) → OverrideState → Override

-- `Target` and `State`
abbrev pub target : Override → ℕ
target (vserver_override o) = o.vserver_name
target (backend_override hostname state) = hostname
target (destination_override vserver destination state) = destination

abbrev pub state_of : Override → OverrideState
state_of (vserver_override o) = o.state
state_of (backend_override hostname state) = state
state_of (destination_override vserver destination state) = state

-- A vserver, and what its goroutine has not taken from its channels yet.
pub record Running : Type 0 where
  pub vserver : Configured
  pub updates : List Config
  pub overrides : List Override

pub data VlanOp : Type 0 where
  vlan_deleted vlan_added : Vlan → VlanOp

-- `Cluster`, by what is read of it here; the keys are names and VLAN ids.
pub record Cluster : Type 0 where
  pub vservers : List (ℕ × Config)
  pub vlans : List (ℕ × Vlan)

pub record Engine : Type 0 where
  pub vservers : List (ℕ × Running)
  pub overrides : List (ℕ × Override)
  pub vlans : List (ℕ × Vlan)
  pub vlan_ops : List VlanOp
  pub fwm_alloc : MarkAllocator

abbrev pub update_size : ℕ
update_size = 20

abbrev pub override_size : ℕ
override_size = 5

-- `queueOverride`
unfoldable pub queue_override : Running → Override → Running
queue_override r o =
    if ltb (length r.overrides) override_size
    then record r { overrides = r.overrides ++ o ∷ [] }
    else r

abbrev pub queue_at : ℕ → Override → List (ℕ × Running) → List (ℕ × Running)
queue_at name o vservers = elim (lookup name vservers) [
  | none ↦ vservers
  | some r ↦ insert name (queue_override r o) vservers
]

abbrev pub queue_all : Override → List (ℕ × Running) → List (ℕ × Running)
queue_all o [] = []
queue_all o ((name, r) ∷ rest) = (name, queue_override r o) ∷ queue_all o rest

-- `distributeOverride`
unfoldable pub distribute_override : Override → List (ℕ × Running) → List (ℕ × Running)
unfolding queue_override
distribute_override (vserver_override o) vservers =
    queue_at o.vserver_name (vserver_override o) vservers
distribute_override (destination_override vserver destination state) vservers =
    queue_at vserver (destination_override vserver destination state) vservers
distribute_override (backend_override hostname state) vservers =
    queue_all (backend_override hostname state) vservers

abbrev pub is_default : OverrideState → Bool
is_default override_default = true
is_default _ = false

-- `handleOverride`
unfoldable pub handle_override : Engine → Override → Engine
unfolding distribute_override
handle_override e o =
    let kept = insert (target o) o e.overrides in
    record e {
      vservers = distribute_override o e.vservers;
      overrides = if is_default (state_of o) then remove (target o) kept else kept;
    }

-- The first loop of `updateVservers`: a vserver that is not configured any more is stopped, at which
-- its goroutine takes the quit before whatever else its channels hold.
unfoldable pub stop_unconfigured :
    Env
    → List (ℕ × Config)
    → List (ℕ × Running)
    → MarkAllocator
    → List (ℕ × Running) × MarkAllocator
stop_unconfigured env configs [] ma = ([], ma)
stop_unconfigured env configs ((name, r) ∷ rest) ma =
    let stopped = (quit env (record r.vserver { fwm_alloc = ma })).fwm_alloc in
    let (kept, ma') =
      stop_unconfigured env configs rest (if is_some (lookup name configs) then ma else stopped) in
    (if is_some (lookup name configs) then (name, r) ∷ kept else kept, ma')

abbrev pub new_running : MarkAllocator → Running
new_running ma = record { vserver = new_vserver ma; updates = []; overrides = [] }

-- The second loop: a vserver that is new is spawned.
unfoldable pub spawn_new :
    MarkAllocator → List (ℕ × Config) → List (ℕ × Running) → List (ℕ × Running)
spawn_new ma [] vservers = vservers
spawn_new ma ((name, config) ∷ rest) vservers =
    spawn_new ma rest
      (if is_some (lookup name vservers) then vservers else insert name (new_running ma) vservers)

unfoldable pub distribute_all : List (ℕ × Override) → List (ℕ × Running) → List (ℕ × Running)
distribute_all [] vservers = vservers
distribute_all ((name, o) ∷ rest) vservers = distribute_all rest (distribute_override o vservers)

-- `deep_equal` is `reflect.DeepEqual`.
module _ (deep_equal : Config → Config → Bool) where
  abbrev pub is_current : Config → Configured → Bool
  is_current config c = elim (c.config) [ none ↦ false | some old ↦ deep_equal config old ]

  -- `updateConfig`
  unfoldable pub update_config : Running → Config → Running
  update_config r config =
      if is_current config r.vserver
      then r
      else if ltb (length r.updates) update_size
      then record r { updates = r.updates ++ config ∷ [] }
      else r

  -- The last loop.
  unfoldable pub update_configs : List (ℕ × Config) → List (ℕ × Running) → List (ℕ × Running)
  unfolding update_config
  update_configs [] vservers = vservers
  update_configs ((name, config) ∷ rest) vservers =
      update_configs rest (elim (lookup name vservers) [
        | none ↦ vservers
        | some r ↦ insert name (update_config r config) vservers
      ])

  -- `updateVservers`
  unfoldable pub update_vservers : Env → Cluster → Engine → Engine
  unfolding stop_unconfigured spawn_new distribute_all update_configs
  update_vservers env cluster engine =
      let (kept, ma) = stop_unconfigured env cluster.vservers engine.vservers engine.fwm_alloc in
      record engine {
        vservers =
            update_configs cluster.vservers
              (distribute_all engine.overrides (spawn_new ma cluster.vservers kept));
        fwm_alloc = ma;
      }

abbrev pub unconfigure_all : List (ℕ × Running) → List (ℕ × Running)
unconfigure_all [] = []
unconfigure_all ((name, r) ∷ rest) =
    (name, record r { vserver = unconfigure_vips r.vserver }) ∷ unconfigure_all rest

-- `VLAN.Equal`
abbrev pub same_vlan : Vlan → Vlan → Bool
same_vlan a b = a.id == b.id && a.host == b.host

-- The loop over `e.vlans`: what is to be removed, what is to be added, and whether a VLAN changed, at
-- which all vservers give up their addresses.
unfoldable pub outdated : List (ℕ × Vlan) → List (ℕ × Vlan) → List Vlan × List Vlan × Bool
outdated wanted [] = ([], [], false)
outdated wanted ((k, vlan) ∷ rest) =
    let (old, new, changed) = outdated wanted rest in
    elim (lookup k wanted) [
      | none ↦ (vlan ∷ old, new, changed)
      | some w ↦ if same_vlan vlan w then (old, new, changed) else (vlan ∷ old, w ∷ new, true)
    ]

unfoldable pub missing : List (ℕ × Vlan) → List (ℕ × Vlan) → List Vlan
missing have [] = []
missing have ((k, vlan) ∷ rest) =
    let more = missing have rest in if is_some (lookup k have) then more else vlan ∷ more

abbrev pub ops_of : (Vlan → VlanOp) → List Vlan → List VlanOp
ops_of op [] = []
ops_of op (v ∷ vs) = op v ∷ ops_of op vs

-- `updateVLANs`
unfoldable pub update_vlans : Cluster → Engine → Engine
unfolding outdated missing
update_vlans cluster engine =
    let (old, new, changed) = outdated cluster.vlans engine.vlans in
    record engine {
      vservers = if changed then unconfigure_all engine.vservers else engine.vservers;
      vlans = cluster.vlans;
      vlan_ops =
          engine.vlan_ops
          ++ (ops_of vlan_deleted old
              ++ ops_of vlan_added (new ++ missing engine.vlans cluster.vlans));
    }

abbrev pub vlans_of : List (ℕ × Vlan) → List Vlan
vlans_of [] = []
vlans_of ((k, v) ∷ rest) = v ∷ vlans_of rest

-- `deleteVLANs`
unfoldable pub delete_vlans : Engine → Engine
delete_vlans engine = record engine {
  vlans = [];
  vlan_ops = engine.vlan_ops ++ ops_of vlan_deleted (vlans_of engine.vlans);
}

-- `shutdownVservers`
unfoldable pub shutdown_list : Env → List (ℕ × Running) → MarkAllocator → MarkAllocator
shutdown_list env [] ma = ma
shutdown_list env ((name, r) ∷ rest) ma =
    shutdown_list env rest (quit env (record r.vserver { fwm_alloc = ma })).fwm_alloc

unfoldable pub shutdown_vservers : Env → Engine → Engine
unfolding shutdown_list
shutdown_vservers env engine = record engine {
  vservers = [];
  fwm_alloc = shutdown_list env engine.vservers engine.fwm_alloc;
}
