-- ===== src/Engine/Vserver/Settled.antt =====
-- When the state of a vserver is settled: every address, service and destination is up exactly if it
-- should be.
use seesaw.Base.{
  ℕ, ◌≡◌, refl, ◌∙◌, ◌⊎◌, inl, inr, ==_iff, Bool, true, false, ◌&&◌, List, [], ◌∷◌, All, arith,
  ◌==◌, Bool-cases,
}
use seesaw.Engine.Vserver.Data.{Destination, Service, IpvsService, Env}
use seesaw.Engine.Vserver.Service.{
  update_dest, update_dest_list, update_dests, service_up, service_down,
}
use seesaw.Engine.Vserver.State.{
  Vserver, is_active, vserver_health, update_service, update_service_list,
}

-- Each destination is up exactly if its service is up and it is healthy.
abbrev pub AreDestsSettled : Bool → List Destination → Type 0
AreDestsSettled up = All (λ d. d.active ≡ (up && d.healthy))

abbrev pub IsServiceSettled : Vserver → Service → Type 0
IsServiceSettled v s =
    (s.active ≡ (is_active v s.vip && s.healthy)) × AreDestsSettled s.active s.dests

pub record IsSettled (env : Env) (v : Vserver) : Type 0 where
  pub addresses : (ip : ℕ) → is_active v ip ≡ vserver_health env ip false v.services
  pub services : All (IsServiceSettled v) v.services

update_dest_settles :
    (svc : IpvsService) (up : Bool) (d : Destination)
    → ((update_dest svc up d).0.active ≡ (up && d.healthy))
      × ((update_dest svc up d).0.healthy ≡ d.healthy)
unfolding update_dest
update_dest_settles svc up d = ground arith

pub update_dest_list-AreDestsSettled :
    (svc : IpvsService) (up : Bool) (ds : List Destination)
    → AreDestsSettled up (update_dest_list svc up ds).0
unfolding update_dest_list
update_dest_list-AreDestsSettled svc up [] = tt
update_dest_list-AreDestsSettled svc up (d ∷ ds) =
    (ground (arith, update_dest_settles svc up d), update_dest_list-AreDestsSettled svc up ds)

-- Before a service is settled: with the service down, no destination is up.
abbrev pub AreBelow : Bool → List Destination → Type 0
AreBelow up = All (λ d. up ≡ false → d.active ≡ false)

pub AreBelow-AreDestsSettled :
    (ds : List Destination) → AreBelow false ds → AreDestsSettled false ds
AreBelow-AreDestsSettled [] h = tt
AreBelow-AreDestsSettled (d ∷ ds) h = (h.0 refl, AreBelow-AreDestsSettled ds h.1)

pub AreDestsSettled-AreBelow :
    (up : Bool) (ds : List Destination) → AreDestsSettled up ds → AreBelow up ds
AreDestsSettled-AreBelow up [] h = tt
AreDestsSettled-AreBelow up (d ∷ ds) h =
    ((λ e. ground (arith, h.0)), AreDestsSettled-AreBelow up ds h.1)

-- A service that `updateServices` settles: its destinations are settled if it is to stay up.
abbrev pub IsReady : Service → Type 0
IsReady s =
    AreBelow s.active s.dests × ((s.active && s.healthy) ≡ true → AreDestsSettled s.active s.dests)

pub service_up_settles :
    (s : Service) → ((service_up s).0.active ≡ true) × AreDestsSettled true (service_up s).0.dests
unfolding service_up update_dests
service_up_settles s = (refl, update_dest_list-AreDestsSettled s.ipvs_svc true s.dests)

pub service_down_settles :
    (s : Service)
    → ((service_down s).0.active ≡ false) × AreDestsSettled false (service_down s).0.dests
unfolding service_down update_dests
service_down_settles s = (refl, update_dest_list-AreDestsSettled s.ipvs_svc false s.dests)

update_service_cases :
    (up : Bool) (ip : ℕ) (s : Service)
    → (s.vip == ip) ≡ true
    → let s' = (update_service up ip s).0 in
      (((s' ≡ (service_down s).0) × ((up && s.healthy) ≡ false))
        ⊎ ((s' ≡ (service_up s).0) × ((up && s.healthy) ≡ true)))
      ⊎ ((s' ≡ s) × (s.active ≡ (up && s.healthy)))
unfolding update_service
update_service_cases up ip s at = ground arith

pub IsReady-AreDestsSettled :
    (s : Service) → IsReady s → s.active ≡ s.active && s.healthy → AreDestsSettled s.active s.dests
IsReady-AreDestsSettled s r e = elim (Bool-cases s.active) [
  | inl up ↦ r.1 (ground arith)
  | inr down ↦ rw down (AreBelow-AreDestsSettled s.dests (rw down at r.0))
]

update_service_settles :
    (up : Bool) (ip : ℕ) (s : Service)
    → IsReady s
    → (s.vip == ip) ≡ true
    → let s' = (update_service up ip s).0 in
      (s'.active ≡ (up && s.healthy)) × AreDestsSettled s'.active s'.dests
update_service_settles up ip s r at = elim (update_service_cases up ip s at) [
  | inl (inl (e, off)) ↦ rw (e, (service_down_settles s).0, off) (refl, (service_down_settles s).1)
  | inl (inr (e, on)) ↦ rw (e, (service_up_settles s).0, on) (refl, (service_up_settles s).1)
  | inr (e, kept) ↦ rw e (kept, IsReady-AreDestsSettled s r (ground arith))
]

update_service_keeps :
    (up : Bool) (ip : ℕ) (s : Service)
    → ((update_service up ip s).0.vip ≡ s.vip) × ((update_service up ip s).0.healthy ≡ s.healthy)
unfolding update_service service_up service_down update_dests
update_service_keeps up ip s = (ground arith, ground arith)

update_service_other :
    (up : Bool) (ip : ℕ) (s : Service) → (s.vip == ip) ≡ false → (update_service up ip s).0 ≡ s
unfolding update_service
update_service_other up ip s h = ground arith

-- The health of an address reads only the address and the health of each service.
pub vserver_health-update_service_list :
    (env : Env) (j : ℕ) (h up : Bool) (ip : ℕ) (ss : List Service)
    → vserver_health env j h (update_service_list up ip ss).0 ≡ vserver_health env j h ss
unfolding vserver_health update_service_list
vserver_health-update_service_list env j h up ip [] = refl
vserver_health-update_service_list env j h up ip (s ∷ ss) = ground (
  arith,
  update_service_keeps up ip s,
  vserver_health-update_service_list env j h up ip ss,
  vserver_health-update_service_list env j true up ip ss,
  vserver_health-update_service_list env j false up ip ss,
)

-- What holds of a service before `updateServices` runs for `ip`, with `after` its vserver afterwards.
abbrev pub IsPending : Vserver → ℕ → Service → Type 0
IsPending after ip s = IsReady s × ((s.vip == ip) ≡ false → IsServiceSettled after s)

pub update_service_list_settles :
    (after : Vserver) (up : Bool) (ip : ℕ) (ss : List Service)
    → is_active after ip ≡ up
    → All (IsPending after ip) ss
    → All (IsServiceSettled after) (update_service_list up ip ss).0
unfolding update_service_list
update_service_list_settles after up ip [] flag h = tt
update_service_list_settles after up ip (s ∷ ss) flag h = (
  elim (Bool-cases (s.vip == ip)) [
    | inl at ↦
        let (active, dests) = update_service_settles up ip s h.0.0 at in
        let (vip, healthy) = update_service_keeps up ip s in
        let here : s.vip ≡ ip = (==_iff s.vip ip).0 at in
        (active ∙ rw (vip, healthy, here, flag) refl, dests)
    | inr other ↦ rw (update_service_other up ip s other) (h.0.1 other)
  ],
  update_service_list_settles after up ip ss flag h.1,
)
