-- ===== src/Engine/Vserver/Config/Update.antt =====
-- engine/vserver.go: `configInit`, `configUpdate` and `handleConfigUpdate`.
use seesaw.Base.{
  ℕ, Bool, true, false, not, ◌&&◌, ◌||◌, Option, none, some, List, [], ◌∷◌, ◌==◌, if◌then◌else◌,
  map, lookup, length,
}
use seesaw.Engine.Healthchecks.Keys.{check_key_eq, same_bool}
use seesaw.Engine.Vserver.Data.{VserverEntry, Service, Env}
use seesaw.Engine.Vserver.Events.{down_all}
use seesaw.Engine.Vserver.Config.Data.{Config, Configured, apply, vserver_enabled}
use seesaw.Engine.Vserver.Config.Expand.{expand_services, expand_dests}
use seesaw.Engine.Vserver.Config.Checks.{expand_checks, carry_status}
use seesaw.Engine.Vserver.Config.Vips.{configure_vips, unconfigure_vips, unconfigure_unneeded}
use seesaw.Engine.Vserver.Config.Equal.{same_lb_mode}
use seesaw.Engine.Vserver.Config.Services.{add_or_update_all}
use seesaw.Engine.Vserver.Config.Dests.{update_all_dests}

-- The rest of `configUpdate`: addresses, and checks with the status that they had.
unfoldable pub update_checks : Config → Configured → Configured
unfolding unconfigure_unneeded expand_checks carry_status configure_vips
update_checks config c =
    let c' = expand_checks config (unconfigure_unneeded c c.vips) in
    let carried : Configured = record c' {
      vserver = record c'.vserver {
        checks = carry_status c.vserver.checks c.check_refs c'.check_refs c'.vserver.checks;
      };
    } in
    if carried.vserver.enabled then configure_vips carried config.vips else carried

-- `configUpdate`, after the assignment of the configuration.
unfoldable pub config_update : Env → Config → Configured → Option Configured
unfolding add_or_update_all update_all_dests update_checks expand_services
config_update env config c = elim (expand_services env config (record c { config = some config })) [
  | none ↦ none
  | some (c', svcs) ↦
      let c'' = add_or_update_all env c' svcs in
      elim (update_all_dests env config svcs c''
        (map (λ (s : Service). s.key) c''.vserver.services)) [
          | none ↦ none
          | some d ↦ some (update_checks config d)
        ]
]

abbrev pub with_dests : Config → List Service → List Service
with_dests config [] = []
with_dests config (s ∷ ss) =
    record s { dests = expand_dests s config.backends [] } ∷ with_dests config ss

-- `configInit`; every service gets a map of destinations.
unfoldable pub config_init : Env → Config → Configured → Option Configured
unfolding expand_services expand_checks configure_vips
config_init env config c =
    let on = vserver_enabled (some config) c.override.state in
    elim (expand_services env config
      (record c { config = some config; vserver = record c.vserver { enabled = on } })) [
        | none ↦ none
        | some (c', svcs) ↦
            let d = expand_checks config (record c' {
              vserver = record c'.vserver { services = with_dests config svcs };
              nil_dests = [];
            }) in
            some (if on then configure_vips d config.vips else d)
      ]

-- `v.config.Entries[k]` is missing or of another mode.
abbrev pub entry_differs : List (ℕ × VserverEntry) → ℕ × VserverEntry → Bool
entry_differs old (k, entry) = elim (lookup k old) [
  | none ↦ true
  | some e ↦ not (same_lb_mode e.mode entry.mode)
]

abbrev pub some_entry_differs : List (ℕ × VserverEntry) → List (ℕ × VserverEntry) → Bool
some_entry_differs old [] = false
some_entry_differs old (e ∷ es) = entry_differs old e || some_entry_differs old es

-- `reInit`
unfoldable pub needs_reinit : Config → Config → Bool
needs_reinit old config =
    not (same_bool config.use_fwm old.use_fwm)
    || (not (length config.entries == length old.entries)
        || some_entry_differs old.entries config.entries)

-- `downAll` and `unconfigureVIPs`
unfoldable pub go_down : Env → Configured → Configured
unfolding down_all unconfigure_vips
go_down env c = unconfigure_vips (apply c (down_all env c.vserver))

-- `handleConfigUpdate`, of a configuration that is not nil.
unfoldable pub handle_config_update : Env → Config → Configured → Option Configured
unfolding config_init config_update go_down needs_reinit vserver_enabled
handle_config_update env config c = elim (c.config) [
  | none ↦ config_init env config c
  | some old ↦
      let on = vserver_enabled (some config) c.override.state in
      if c.vserver.enabled && not on
      then config_init env config (go_down env c)
      else if not c.vserver.enabled
      then config_init env config c
      else if needs_reinit old config
      then config_init env config (go_down env c)
      else config_update env config c
]
