-- ===== src/Engine/Vserver/Config/Deletion.antt =====
-- engine/vserver.go: services that `configUpdate` deletes.
use seesaw.Base.{◌≡◌, refl, sym, ap, ◌∙◌, Bool, true, false, some, List, [], ◌∷◌, All, arith, subst}
use mathlib.Core.Option as Option
use seesaw.Engine.Vserver.Data.{Service, Destination, IpvsService, Env}
use seesaw.Engine.Vserver.Service.{update_dest, update_dest_list, update_dests, service_down}
use seesaw.Engine.Vserver.State.{
  Vserver, find, replace, is_active, vserver_health, update_service, vserver_update_state,
}
use seesaw.Engine.Vserver.Settled.{IsSettled}
use seesaw.Engine.Vserver.Addresses.{update_state_effect}
use seesaw.Engine.Vserver.Found.{find-replace, find-same_key}
use seesaw.Engine.Vserver.Config.Families.{find-update_service_list}
use seesaw.Engine.Vserver.Config.Services.{take_down, delete_service, remove_service}

update_dest_list-down :
    (svc : IpvsService) (ds : List Destination)
    → All (λ d. d.active ≡ false) (update_dest_list svc false ds).0
unfolding update_dest_list update_dest
update_dest_list-down svc [] = tt
update_dest_list-down svc (d ∷ ds) = (ground arith, update_dest_list-down svc ds)

update_service-unhealthy :
    (up : Bool) (s : Service)
    → s.active ≡ true
    → s.healthy ≡ false
    → (update_service up s.vip s).0 ≡ (service_down s).0
unfolding update_service
update_service-unhealthy up s on sick = ground arith

-- When `deleteService` takes a service that is up out of the map, the service is down by then, and so
-- are all of its destinations: nothing of it is left in IPVS. This holds in every vserver that has the
-- service.
pub take_down-inactive :
    (env : Env) (v : Vserver) (s t : Service)
    → find s.key v.services ≡ some s
    → s.active ≡ true
    → find s.key (take_down env v s).0.services ≡ some t
    → (t.active ≡ false) × All (λ d. d.active ≡ false) t.dests
unfolding take_down service_down update_dests
take_down-inactive env v s t found on left =
    let s' : Service = record s { healthy = false } in
    let w : Vserver = record v { services = replace s.key s' v.services } in
    let up = vserver_health env s.vip false w.services in
    let found' : find s.key w.services ≡ some s' =
      find-replace s.key v.services s s' found (find-same_key s.key v.services {s = s} found) in
    let taken : take_down env v s ≡ vserver_update_state env w s.vip = rw (take_down, on) refl in
    let same : (update_service up s.vip s').0 ≡ t = Option.some-injective _ t (
      sym (find-update_service_list up s.vip s.key w.services s' found')
      ∙ (sym (ap (find s.key) (update_state_effect env w s.vip).0)
          ∙ (sym (ap (λ (p : Vserver × _). find s.key p.0.services) taken) ∙ left))) in
    let down : (service_down s').0 ≡ t = sym (update_service-unhealthy up s' on refl) ∙ same in
    (
      sym (ap (λ (x : Service). x.active) down),
      subst (λ (x : Service). All (λ d. d.active ≡ false) x.dests) down
          (update_dest_list-down s.ipvs_svc s.dests),
    )

-- Suppose that a vserver is settled, that the health of an address is bad, and that it would be good
-- without a certain service, which is down: an anycast address with one bad service. When
-- `deleteService` deletes this service, the address stays down although all that is left is healthy,
-- so that the vserver is not settled any more.
pub delete_service-unsettled :
    (env : Env) (v : Vserver) (s : Service)
    → IsSettled env v
    → s.active ≡ false
    → vserver_health env s.vip false v.services ≡ false
    → vserver_health env s.vip false (remove_service s.key v.services) ≡ true
    → (is_active (delete_service env v s).0 s.vip ≡ false)
      × ¬ IsSettled env (delete_service env v s).0
unfolding delete_service take_down
delete_service-unsettled env v s settled off before after =
    let w : Vserver = record v { services = remove_service s.key v.services } in
    let left : (delete_service env v s).0 ≡ w = ground arith in
    let down : is_active (delete_service env v s).0 s.vip ≡ false =
      ap (λ (x : Vserver). is_active x s.vip) left ∙ (settled.addresses s.vip ∙ before) in
    (
      down,
      λ h. absurd (
          ground (
            arith,
            h.addresses s.vip,
            down,
            ap (λ (x : Vserver). vserver_health env s.vip false x.services) left,
            after,
          )),
    )
