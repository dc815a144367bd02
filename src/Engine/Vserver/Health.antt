-- ===== src/Engine/Vserver/Health.antt =====
-- The health of an IP address, and what a service tells IPVS when it goes up and down.
use seesaw.Base.{
  ℕ, ◌≡◌, refl, Bool, true, false, not, ◌&&◌, ◌||◌, List, [], ◌∷◌, ◌++◌, All, arith, ◌==◌,
  if◌then◌else◌, map,
}
use seesaw.Engine.Vserver.Data.{
  Destination, Service, IpvsService, Op, add_service, delete_service, add_destination,
  delete_destination, Env,
}
use seesaw.Engine.Vserver.Service.{
  update_dest, update_dest_list, update_dests, service_up, service_down,
}
use seesaw.Engine.Vserver.State.{vserver_health}

-- Whether the address has a service, a healthy one, and only healthy ones.
abbrev pub any_service : ℕ → List Service → Bool
any_service ip [] = false
any_service ip (s ∷ ss) = s.vip == ip || any_service ip ss

abbrev pub any_healthy : ℕ → List Service → Bool
any_healthy ip [] = false
any_healthy ip (s ∷ ss) = (s.vip == ip && s.healthy) || any_healthy ip ss

abbrev pub all_healthy : ℕ → List Service → Bool
all_healthy ip [] = true
all_healthy ip (s ∷ ss) = (not (s.vip == ip) || s.healthy) && all_healthy ip ss

vserver_health-from :
    (env : Env) (ip : ℕ) (so_far : Bool) (ss : List Service)
    → vserver_health env ip so_far ss ≡ (
        if env.is_anycast ip
        then all_healthy ip ss && (any_service ip ss || so_far)
        else any_healthy ip ss || (so_far && not (any_service ip ss)))
unfolding vserver_health
vserver_health-from env ip so_far [] = ground arith
vserver_health-from env ip so_far (s ∷ ss) = ground (
  arith,
  vserver_health-from env ip so_far ss,
  vserver_health-from env ip true ss,
  vserver_health-from env ip false ss,
)

-- An anycast address is healthy if it has services and all of them are healthy; any other address if
-- one of its services is.
pub vserver_health-any :
    (env : Env) (ip : ℕ) (ss : List Service)
    → vserver_health env ip false ss
      ≡ (if env.is_anycast ip then all_healthy ip ss && any_service ip ss else any_healthy ip ss)
vserver_health-any env ip ss = ground (arith, vserver_health-from env ip false ss)

-- The destinations that are healthy.
abbrev pub healthy_dests : List Destination → List Destination
healthy_dests [] = []
healthy_dests (d ∷ ds) = let rest = healthy_dests ds in if d.healthy then d ∷ rest else rest

abbrev pub add_all : IpvsService → List Destination → List Op
add_all svc ds = map (λ (d : Destination). add_destination svc d.ipvs_dst) (healthy_dests ds)

abbrev pub delete_all : IpvsService → List Destination → List Op
delete_all svc ds = map (λ (d : Destination). delete_destination svc d.ipvs_dst) (healthy_dests ds)

abbrev AreDown : List Destination → Type 0
AreDown = All (λ d. d.active ≡ false)

update_dest_list-up :
    (svc : IpvsService) (ds : List Destination)
    → AreDown ds
    → (update_dest_list svc true ds).1 ≡ add_all svc ds
unfolding update_dest_list update_dest
update_dest_list-up svc [] h = refl
update_dest_list-up svc (d ∷ ds) h = ground (arith, update_dest_list-up svc ds h.1, h.0)

update_dest_list-up_down :
    (svc : IpvsService) (ds : List Destination)
    → AreDown ds
    → update_dest_list svc false (update_dest_list svc true ds).0 ≡ (ds, delete_all svc ds)
unfolding update_dest_list update_dest
update_dest_list-up_down svc [] h = refl
update_dest_list-up_down svc (d ∷ ds) h = ground (arith, update_dest_list-up_down svc ds h.1, h.0)

-- A service that is down, with its destinations, goes up by adding its IPVS service first and then each
-- healthy destination once; when it then goes down it deletes these destinations, in the same order,
-- before its service, and is as it was.
pub service_down-service_up :
    (s : Service)
    → s.active ≡ false
    → All (λ d. d.active ≡ false) s.dests
    → ((service_up s).1 ≡ add_service s.ipvs_svc ∷ add_all s.ipvs_svc s.dests)
      × (service_down (service_up s).0
          ≡ (s, delete_all s.ipvs_svc s.dests ++ delete_service s.ipvs_svc ∷ []))
unfolding service_up service_down update_dests
service_down-service_up s down h = (
  ground (arith, update_dest_list-up s.ipvs_svc s.dests h),
  ground (arith, update_dest_list-up_down s.ipvs_svc s.dests h),
)
