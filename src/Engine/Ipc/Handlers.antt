-- ===== src/Engine/Ipc/Handlers.antt =====
-- engine/ipc.go: the calls of `SeesawEngine`. The replies that they fill in are never nil.
use seesaw.Base.{
  ℕ, Bool, true, false, not, ◌||◌, Option, none, some, List, [], ◌∷◌, ◌++◌, if◌then◌else◌, lookup,
  insert, is_some,
}
use seesaw.Ha.Node.Defs.{HaState}
use seesaw.Healthcheck.Check.Defs as Check
use seesaw.Engine.HaManager.Defs as HaManager
use seesaw.Engine.Healthchecks.Defs.{queue_health_state}
use seesaw.Engine.Access.Defs.{has_access}
use seesaw.Engine.Vserver.Data.{Backend}
use seesaw.Engine.Vserver.Events.{OverrideState}
use seesaw.Engine.Vserver.Config.Data.{VserverOverride}
use seesaw.Engine.Core.Defs.{
  Running, Override, vserver_override, destination_override, backend_override,
}
use seesaw.Engine.Config.Notifier.{Source}
use seesaw.Engine.Ipc.Context.{
  Context, AuthGroups, is_authenticated, is_trusted, is_admin, is_operator, can_read, can_write,
}
use seesaw.Engine.Ipc.Server.{
  Server, Reply, err_args, err_context, err_access, err_nil, err_full, err_node, err_cluster,
  err_source, err_reload, done, failover_reply, failover_pending, ha_config, ha_status, checks,
  status_of, old_source, neighbors, vlans, vservers, backends,
}

-- `ipc.Override`
pub record OverrideArgs : Type 0 where
  pub ctx : Option Context
  pub vserver : Option VserverOverride
  pub destination : Option (ℕ × ℕ × OverrideState)
  pub backend : Option (ℕ × OverrideState)

-- `Source` of `ipc.ConfigSource`, and what `SourceByName` finds.
pub data SourceName : Type 0 where
  no_name unknown_name : SourceName
  name_of : Source → SourceName

-- The tests that most calls begin with.
abbrev pub guarded : (Context → Bool) → Option Context → Server × Reply → Server → Server × Reply
guarded allowed none result s = (s, err_context)
guarded allowed (some ctx) result s = if allowed ctx then result else (s, err_access)

-- `queueOverride`
abbrev pub queue : Override → Server → Server
queue o s = record s { overrides = s.overrides ++ o ∷ [] }

-- The loop of `HealthState`; `queueHealthState` returns no error.
abbrev pub queue_all : List Check.Notification → Server → Server
queue_all [] s = s
queue_all (n ∷ ns) s = queue_all ns (record s { notes = queue_health_state s.hc_manager n s.notes })

-- The loops of `Backends`.
abbrev pub add_backends : List Backend → List (ℕ × Backend) → List (ℕ × Backend)
add_backends [] known = known
add_backends (b ∷ bs) known =
    add_backends bs (if is_some (lookup b.hostname known) then known else insert b.hostname b known)

abbrev pub all_backends : List (ℕ × Running) → List (ℕ × Backend) → List (ℕ × Backend)
all_backends [] known = known
all_backends ((name, r) ∷ rest) known =
    all_backends rest
      (elim (r.vserver.config) [ none ↦ known | some config ↦ add_backends config.backends known ])

unfoldable pub get_ha_config : Option Context → Server → Server × Reply
get_ha_config ctx s =
    guarded is_trusted ctx
      (elim (s.local_node) [ none ↦ (s, err_node) | some n ↦ (s, ha_config n) ]) s

-- `setHAStatus`, and then `failover`.
unfoldable pub ha_update : Option (Option Context × HaManager.Status) → Server → Server × Reply
ha_update none s = (s, err_args)
ha_update (some (ctx, status)) s =
    let (h, pending) = HaManager.failover s.manager.ha_manager in
    guarded is_trusted ctx
      (elim (s.status_chan) [
        | some full ↦ (s, err_full)
        | none ↦ (
          record s { status_chan = some status; manager = record (s.manager) { ha_manager = h } },
          failover_pending pending,
        )
      ])
      s

unfoldable pub set_ha_state : Option (Option Context × HaState) → Server → Server × Reply
set_ha_state none s = (s, err_args)
set_ha_state (some (ctx, state)) s =
    guarded is_trusted ctx
      (elim (s.state_chan) [
        | some full ↦ (s, err_full)
        | none ↦ (record s { state_chan = some state }, done)
      ])
      s

unfoldable pub healthchecks : Option Context → Server → Server × Reply
healthchecks ctx s =
    guarded is_trusted ctx
      (s, checks (if s.hc_manager.enabled then some s.hc_manager.cfgs else none)) s

unfoldable pub health_state :
    Option (Option Context × List Check.Notification) → Server → Server × Reply
health_state none s = (s, err_args)
health_state (some (ctx, notifications)) s =
    guarded is_trusted ctx (queue_all notifications s, done) s

unfoldable pub get_backends : Option Context → Server → Server × Reply
get_backends ctx s =
    guarded is_trusted ctx (s, backends (all_backends s.manager.engine.vservers [])) s

module _ (auth : AuthGroups) where
  unfoldable pub failover : Option Context → Server → Server × Reply
  failover ctx s =
      let (h, reply) = HaManager.request_failover s.manager.ha_manager false in
      guarded (can_write auth) ctx
        (record s { manager = record (s.manager) { ha_manager = h } }, failover_reply reply) s

  unfoldable pub get_ha_status : Option Context → Server → Server × Reply
  get_ha_status ctx s = guarded (can_read auth) ctx (s, ha_status s.manager.ha_manager.status) s

  -- `ClusterStatus` and `ConfigStatus`
  unfoldable pub cluster_status : Option Context → Server → Server × Reply
  cluster_status ctx s =
      guarded (can_read auth) ctx
        (elim (s.cluster) [ none ↦ (s, err_cluster) | some c ↦ (s, status_of c) ]) s

  unfoldable pub config_reload : Option Context → Server → Server × Reply
  config_reload ctx s =
      guarded (can_write auth) ctx
        (if s.reload then (s, err_reload) else (record s { reload = true }, done)) s

  -- `SetSource` reloads, too, and only logs the error.
  unfoldable pub config_source : Option (Option Context × SourceName) → Server → Server × Reply
  config_source none s = (s, err_args)
  config_source (some (ctx, name)) s =
      let before = old_source s.notifier.source in
      guarded (can_write auth) ctx
        (elim name [
          | no_name ↦ (s, before)
          | unknown_name ↦ (s, err_source)
          | name_of source ↦ (
            record s { notifier = record (s.notifier) { source = source }; reload = true },
            before,
          )
        ])
        s

  unfoldable pub bgp_neighbors : Option Context → Server → Server × Reply
  bgp_neighbors ctx s = guarded (can_read auth) ctx (s, neighbors s.neighbors) s

  unfoldable pub get_vlans : Option Context → Server → Server × Reply
  get_vlans ctx s = guarded (can_read auth) ctx (s, vlans s.manager.engine.vlans) s

  unfoldable pub get_vservers : Option Context → Server → Server × Reply
  get_vservers ctx s = guarded (can_read auth) ctx (s, vservers s.vserver_snapshots) s

  unfoldable pub override_backend : Option OverrideArgs → Server → Server × Reply
  override_backend none s = (s, err_args)
  override_backend (some args) s =
      guarded (can_write auth) args.ctx
        (elim (args.backend) [
          | none ↦ (s, err_nil)
          | some (hostname, state) ↦ (queue (backend_override hostname state) s, done)
        ])
        s

  unfoldable pub override_destination : Option OverrideArgs → Server → Server × Reply
  override_destination none s = (s, err_args)
  override_destination (some args) s =
      guarded (can_write auth) args.ctx
        (elim (args.destination) [
          | none ↦ (s, err_nil)
          | some (vserver, destination, state) ↦
              (queue (destination_override vserver destination state) s, done)
        ])
        s

  -- `accessCheck`, by whether it returns an error; the reason is only logged.
  unfoldable pub access_check : Context → ℕ → Server → Bool
  access_check ctx vserver s =
      if is_trusted ctx
      then true
      else if is_admin auth ctx.user
      then true
      else if is_operator auth ctx.user
      then is_some (has_access s.manager.vserver_access vserver ctx.user.username)
      else false

  unfoldable pub override_vserver : Option OverrideArgs → Server → Server × Reply
  unfolding access_check
  override_vserver none s = (s, err_args)
  override_vserver (some args) s = elim (args.ctx) [
    | none ↦ (s, err_context)
    | some ctx ↦
        if not (is_authenticated ctx || is_trusted ctx)
        then (s, err_access)
        else elim (args.vserver) [
          | none ↦ (s, err_nil)
          | some o ↦
              if access_check ctx o.vserver_name s
              then (queue (vserver_override o) s, done)
              else (s, err_access)
        ]
  ]
