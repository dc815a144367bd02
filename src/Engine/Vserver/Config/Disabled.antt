-- ===== src/Engine/Vserver/Config/Disabled.antt =====
-- engine/vserver.go: overrides of the backends of a vserver that is disabled.
use seesaw.Base.{ℕ, ◌≡◌, refl, ap, ◌∙◌, true, false, some, List, [], ◌∷◌, arith}
use seesaw.Engine.Vserver.Data.{ServiceKey, Service, Destination, Op, Env}
use seesaw.Engine.Vserver.Service.{service_health}
use seesaw.Engine.Vserver.State.{
  Vserver, find, replace, is_active, vserver_health, update_services, vserver_up, vserver_down,
  vserver_update_state, update_found_service, service_update_state,
}
use seesaw.Engine.Vserver.Addresses.{update_state_effect}
use seesaw.Engine.Vserver.Found.{find-same_key, find-replace}
use seesaw.Engine.Vserver.Health.{any_healthy, vserver_health-any}
use seesaw.Engine.Vserver.Events.{with_dest, override_dest, override_enable}

any_healthy-find :
    (key : ServiceKey) (ss : List Service) (s : Service)
    → find key ss ≡ some s
    → s.healthy ≡ true
    → any_healthy s.vip ss ≡ true
any_healthy-find key [] s e h = absurd (ground arith)
any_healthy-find key (t ∷ ts) s e h = ground (arith, any_healthy-find key ts s)

vserver_update_state-enabled :
    (env : Env) (v : Vserver) (ip : ℕ) → (vserver_update_state env v ip).0.enabled ≡ v.enabled
unfolding vserver_update_state vserver_up vserver_down update_services
vserver_update_state-enabled env v ip = ground arith

-- A service that becomes healthy while its address is down leaves the rest to the address.
becomes_healthy :
    (env : Env) (v : Vserver) (key : ServiceKey) (s : Service)
    → s.healthy ≡ false
    → service_health env s ≡ true
    → is_active v s.vip ≡ false
    → update_found_service env v key s
      ≡ vserver_update_state env
          (record v { services = replace key (record s { healthy = true }) v.services })
          s.vip
unfolding update_found_service
becomes_healthy env v key s was well down = rw (update_found_service, well, was, down) refl

-- Suppose that a unicast address of a disabled vserver is down, and that one of its services would be
-- healthy with one more healthy destination, which is down. The override that enables the backend of
-- this destination brings the address up, and the vserver is still disabled.
pub override_dest-disabled :
    (env : Env) (v : Vserver) (key : ServiceKey) (s : Service) (d : Destination)
    → v.enabled ≡ false
    → env.is_anycast s.vip ≡ false
    → is_active v s.vip ≡ false
    → find key v.services ≡ some s
    → s.healthy ≡ false
    → d.active ≡ false
    → d.healthy ≡ false
    → service_health env (with_dest s d.ip (record d { healthy = true })) ≡ true
    → let v' = (override_dest env d.backend.hostname override_enable v key s d).0 in
      (is_active v' s.vip ≡ true) × (v'.enabled ≡ false)
unfolding override_dest service_update_state
override_dest-disabled env v key s d off unicast down found unhealthy idle sick well =
    let s1 = with_dest s d.ip (record d { healthy = true }) in
    let v1 : Vserver = record v { services = replace key s1 v.services } in
    let s2 : Service = record s1 { healthy = true } in
    let v2 : Vserver = record v1 { services = replace key s2 v1.services } in
    let found1 : find key v1.services ≡ some s1 =
      find-replace key v.services s s1 found (find-same_key key v.services {s = s} found) in
    let found2 : find key v2.services ≡ some s2 =
      find-replace key v1.services s1 s2 found1 (find-same_key key v.services {s = s} found) in
    let up : vserver_health env s.vip false v2.services ≡ true = ground (
      arith,
      vserver_health-any env s.vip v2.services,
      any_healthy-find key v2.services s2 found2,
    ) in
    let inner : service_update_state env v1 key ≡ vserver_update_state env v2 s.vip =
      rw (service_update_state, found1) (becomes_healthy env v1 key s1 unhealthy well down) in
    let step : override_dest env d.backend.hostname override_enable v key s d
        ≡ vserver_update_state env v2 s.vip =
      ground (arith, inner) in
    let effect = (update_state_effect env v2 s.vip).1 s.vip in
    (
      ap (λ (p : Vserver × List Op). is_active p.0 s.vip) step ∙ ground (arith, effect, up),
      ap (λ (p : Vserver × List Op). p.0.enabled) step
          ∙ (vserver_update_state-enabled env v2 s.vip ∙ off),
    )
