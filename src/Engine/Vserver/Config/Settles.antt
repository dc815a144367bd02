-- ===== src/Engine/Vserver/Config/Settles.antt =====
-- engine/vserver.go: a vserver from its first configuration on.
use mathlib.Core.Option as Option
use seesaw.Base.{
  lookup_key, ◌≡◌, refl, ap, ◌∙◌, subst, Bool, true, false, some, List, [], ◌∷◌, All, arith,
  Bool-cases, Option-cases, inl, inr,
}
use seesaw.Engine.Marks.Defs.{MarkAllocator}
use seesaw.Engine.Vserver.Data.{Env}
use seesaw.Engine.Vserver.State.{Vserver}
use seesaw.Engine.Vserver.Settled.{IsSettled}
use seesaw.Engine.Vserver.Events
use seesaw.Engine.Vserver.Events.{CheckNotification, handle_check_notification}
use seesaw.Engine.Vserver.Histories
use seesaw.Engine.Vserver.Histories.{IsFresh, IsFresh-IsSettled}
use seesaw.Engine.Healthchecks.Keys.{check_key_eq}
use seesaw.Engine.Vserver.Config.Run.{
  Event, config_updated, vserver_overridden, dest_overridden, check_notified, notify, handle, run,
}
use seesaw.Engine.Vserver.Config.Data.{Config, Configured, new_vserver, vserver_enabled, apply}
use seesaw.Engine.Vserver.Config.Expand.{expand_services}
use seesaw.Engine.Vserver.Config.Checks.{expand_checks}
use seesaw.Engine.Vserver.Config.Vips.{configure_vips}
use seesaw.Engine.Vserver.Config.Update.{with_dests, config_init, handle_config_update}
use seesaw.Engine.Vserver.Config.Start.{
  expand_services-Keeps, with_dests-IsDown, expand_services_checks-IsDown, configure_vips-IsFresh,
}

config_init-IsFresh :
    (env : Env) (config : Config) (c d : Configured)
    → c.vserver.active ≡ []
    → config_init env config c ≡ some d
    → IsFresh d.vserver
unfolding config_init expand_checks
config_init-IsFresh env config c d quiet e =
    let on = vserver_enabled (some config) c.override.state in
    let start : Configured = record c {
      config = some config;
      vserver = record c.vserver { enabled = on };
    } in
    elim (Option-cases (expand_services env config start)) [
      | inl stopped ↦ absurd (ground arith)
      | inr ((c', svcs), went) ↦
          let kept = expand_services-Keeps env config start (c', svcs) went in
          let filled : Configured = expand_checks config (record c' {
            vserver = record c'.vserver { services = with_dests config svcs };
            nil_dests = [];
          }) in
          let fresh : IsFresh filled.vserver = record {
            no_address = ap (λ (v : Vserver). v.active) kept.0 ∙ quiet;
            all_down =
                expand_services_checks-IsDown config (with_dests config svcs) _
                  (with_dests-IsDown config svcs kept.1);
          } in
          elim (Bool-cases on) [
            | inl is_on ↦
                subst (λ (x : Configured). IsFresh x.vserver)
                  (Option.some-injective (configure_vips filled config.vips) d (ground arith))
                  (configure_vips-IsFresh filled config.vips fresh)
            | inr is_off ↦
                subst (λ (x : Configured). IsFresh x.vserver)
                  (Option.some-injective filled d (ground arith)) fresh
          ]
    ]

-- The events that leave the configuration and the override of the vserver as they are.
abbrev pub keeps_config : Event → Bool
keeps_config (check_notified key st) = true
keeps_config (dest_overridden hostname state) = true
keeps_config _ = false

handle-IsSettled :
    (env : Env) (c d : Configured) (event : Event)
    → keeps_config event ≡ true
    → IsSettled env c.vserver
    → handle env c event ≡ some d
    → IsSettled env d.vserver
unfolding handle notify Events.handle
handle-IsSettled env c d (check_notified key st) keeps h e =
    elim (Option-cases (lookup_key key c.check_refs)) [
      | inl unknown ↦
          subst (λ (x : Configured). IsSettled env x.vserver)
            (Option.some-injective c d (ground arith)) h
      | inr (ref, known) ↦
          let n : CheckNotification = record { key = ref.id; status = st } in
          subst (λ (x : Configured). IsSettled env x.vserver)
            (Option.some-injective (apply c (handle_check_notification env c.vserver n)) d
              (ground arith))
            (Histories.handle-IsSettled env c.vserver (Events.check_notified n) h)
    ]
handle-IsSettled env c d (dest_overridden hostname state) keeps h e =
    subst (λ (x : Configured). IsSettled env x.vserver) (Option.some-injective _ d e)
      (Histories.handle-IsSettled env c.vserver (Events.dest_overridden hostname state) h)
handle-IsSettled env c d (config_updated config) keeps h e = absurd (ground arith)
handle-IsSettled env c d (vserver_overridden o) keeps h e = absurd (ground arith)

run_from-IsSettled :
    (env : Env) (c d : Configured) (es : List Event)
    → All (λ event. keeps_config event ≡ true) es
    → IsSettled env c.vserver
    → run env c es ≡ some d
    → IsSettled env d.vserver
unfolding run
run_from-IsSettled env c d [] keeps h e =
    subst (λ (x : Configured). IsSettled env x.vserver) (Option.some-injective c d e) h
run_from-IsSettled env c d (event ∷ es) keeps h e = elim (Option-cases (handle env c event)) [
  | inl stopped ↦ absurd (ground arith)
  | inr (c', went) ↦
      run_from-IsSettled env c' d es keeps.1 (handle-IsSettled env c c' event keeps.0 h went)
        (ground arith)
]

-- A new vserver that takes on any configuration, and then handles any check notifications and backend
-- or destination overrides: as long as its process runs, every address, service and destination is up
-- exactly if it should be.
pub run-config_updated :
    (env : Env) (config : Config) (ma : MarkAllocator) (es : List Event) (c : Configured)
    → All (λ event. keeps_config event ≡ true) es
    → run env (new_vserver ma) (config_updated config ∷ es) ≡ some c
    → IsSettled env c.vserver
unfolding run handle handle_config_update new_vserver
run-config_updated env config ma es c keeps e =
    elim (Option-cases (config_init env config (new_vserver ma))) [
      | inl stopped ↦ absurd (ground arith)
      | inr (d, went) ↦
          run_from-IsSettled env d c es keeps
            (IsFresh-IsSettled env d.vserver
              (config_init-IsFresh env config (new_vserver ma) d refl went))
            (ground arith)
    ]
