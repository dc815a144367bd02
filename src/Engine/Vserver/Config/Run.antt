-- ===== src/Engine/Vserver/Config/Run.antt =====
-- engine/vserver.go: the override of a vserver, and the loop of `run`.
use seesaw.Base.{ℕ, Option, none, some, List, [], ◌∷◌, ◌==◌, if◌then◌else◌, lookup_key}
use seesaw.Healthcheck.Check.Defs
use seesaw.Engine.Marks.Defs.{MarkAllocator, put}
use seesaw.Engine.Healthchecks.Keys.{CheckKey, check_key_eq, same_bool}
use seesaw.Engine.Vserver.Data.{Env}
use seesaw.Engine.Vserver.Events.{OverrideState, handle_check_notification, handle_dest_override}
use seesaw.Engine.Vserver.Config.Data.{
  Config, VserverOverride, Configured, apply, same_override, vserver_enabled,
}
use seesaw.Engine.Vserver.Config.Update.{go_down, handle_config_update}

-- `handleOverride`, for a `VserverOverride`.
unfoldable pub handle_vserver_override : Env → VserverOverride → Configured → Option Configured
unfolding handle_config_update
handle_vserver_override env o c =
    let c' : Configured = record c { override = o } in
    if same_override c.override o
    then some c
    else if same_bool (vserver_enabled c.config o.state) c.vserver.enabled
    then some c'
    else elim (c.config) [ none ↦ some c' | some config ↦ handle_config_update env config c' ]

-- `handleCheckNotification`, of a notification by its key.
unfoldable pub notify : Env → CheckKey → Defs.Status → Configured → Configured
notify env key st c = elim (lookup_key key c.check_refs) [
  | none ↦ c
  | some ref ↦
      apply c (handle_check_notification env c.vserver (record { key = ref.id; status = st }))
]

-- The quit branch of `run`, which returns the marks.
abbrev pub return_mark : MarkAllocator → ℕ → MarkAllocator
return_mark ma mark = if mark == 0 then ma else put ma mark

unfoldable pub quit : Env → Configured → Configured
unfolding go_down
quit env c =
    let c' = go_down env c in
    record c' { fwm_alloc = return_mark (return_mark c'.fwm_alloc c'.fwm_ipv4) c'.fwm_ipv6 }

-- What the loop of `run` takes from its channels, but for the quit. After an update or an override of a
-- vserver it sends the healthcheck manager what `healthchecks` returns.
pub data Event : Type 0 where
  config_updated : Config → Event
  vserver_overridden : VserverOverride → Event
  dest_overridden : ℕ → OverrideState → Event
  check_notified : CheckKey → Defs.Status → Event

unfoldable pub handle : Env → Configured → Event → Option Configured
unfolding handle_config_update handle_vserver_override notify
handle env c (config_updated config) = handle_config_update env config c
handle env c (vserver_overridden o) = handle_vserver_override env o c
handle env c (dest_overridden hostname state) =
    some (apply c (handle_dest_override env c.vserver hostname state))
handle env c (check_notified key st) = some (notify env key st c)

unfoldable pub run : Env → Configured → List Event → Option Configured
unfolding handle
run env c [] = some c
run env c (e ∷ es) = elim (handle env c e) [ none ↦ none | some c' ↦ run env c' es ]
