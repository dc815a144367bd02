-- ===== src/Engine/Vserver/TakenDown.antt =====
-- engine/vserver.go: what `vserver.down` does to a service and its address.
use seesaw.Base.{
  ℕ, ◌≡◌, refl, ◌⊎◌, inl, inr, true, false, none, some, List, [], ◌∷◌, All, arith, ◌==◌,
  if◌then◌else◌, Option-cases,
}
use seesaw.Engine.Vserver.Data.{ServiceKey, Service, Env}
use seesaw.Engine.Vserver.Service.{service_down, update_dests}
use seesaw.Engine.Vserver.State.{
  Vserver, same_key, find, is_active, update_service, update_service_list, vserver_down,
}
use seesaw.Engine.Vserver.Settled.{AreBelow, AreDestsSettled-AreBelow, service_down_settles}
use seesaw.Engine.Vserver.Addresses.{vserver_down_effect}

-- A service is up only while its address is, and a destination only while its service is.
abbrev pub IsUnder : Vserver → Service → Type 0
IsUnder v s = (is_active v s.vip ≡ false → s.active ≡ false) × AreBelow s.active s.dests

abbrev pub AreUnder : Vserver → Type 0
AreUnder v = All (IsUnder v) v.services

unfoldable pub taken_down : ℕ → Service → Service
taken_down ip s = (update_service false ip s).0

pub taken_down-keeps :
    (ip : ℕ) (s : Service) → ((taken_down ip s).key ≡ s.key) × ((taken_down ip s).vip ≡ s.vip)
unfolding taken_down update_service service_down update_dests
taken_down-keeps ip s = (ground arith, ground arith)

taken_down_cases :
    (ip : ℕ) (s : Service)
    → (taken_down ip s ≡ s × (((s.vip == ip) ≡ false) ⊎ (s.active ≡ false)))
      ⊎ (taken_down ip s ≡ (service_down s).0)
unfolding taken_down update_service
taken_down_cases ip s = ground arith

pub find-taken_down :
    (key : ServiceKey) (ip : ℕ) (ss : List Service)
    → find key (update_service_list false ip ss).0
      ≡ elim (find key ss) [ none ↦ none | some s ↦ some (taken_down ip s) ]
unfolding update_service_list taken_down
find-taken_down key ip [] = refl
find-taken_down key ip (s ∷ ss) =
    ground (arith, find-taken_down key ip ss, (taken_down-keeps ip s).0)

pub find_same :
    (k key : ServiceKey) (ss : List Service) → same_key k key ≡ true → find k ss ≡ find key ss
find_same k key [] e = refl
find_same k key (s ∷ ss) e = ground (arith, find_same k key ss e)

taken_down-IsUnder :
    (v w : Vserver) (ip : ℕ) (s : Service)
    → ((j : ℕ) → is_active w j ≡ (if ip == j then false else is_active v j))
    → IsUnder v s
    → IsUnder w (taken_down ip s)
taken_down-IsUnder v w ip s active u = elim (taken_down_cases ip s) [
  | inl (kept, inl other) ↦ rw kept ((λ e. u.0 (ground (arith, active s.vip))), u.1)
  | inl (kept, inr down) ↦ rw kept ((λ e. down), u.1)
  | inr went ↦
      rw (went, (service_down_settles s).0)
        (
          (λ e. refl),
          AreDestsSettled-AreBelow false (service_down s).0.dests (service_down_settles s).1,
        )
]

taken_down_list-IsUnder :
    (v w : Vserver) (ip : ℕ) (ss : List Service)
    → ((j : ℕ) → is_active w j ≡ (if ip == j then false else is_active v j))
    → All (IsUnder v) ss
    → All (IsUnder w) (update_service_list false ip ss).0
unfolding update_service_list taken_down
taken_down_list-IsUnder v w ip [] active u = tt
taken_down_list-IsUnder v w ip (s ∷ ss) active u =
    (taken_down-IsUnder v w ip s active u.0, taken_down_list-IsUnder v w ip ss active u.1)

-- The service under a key, if there is one, has no active address.
unfoldable pub IsOff : Vserver → ServiceKey → Type 0
IsOff v key = (s : Service) → find key v.services ≡ some s → is_active v s.vip ≡ false

module _ (env : Env) (v : Vserver) (ip : ℕ) where
  pub vserver_down-AreUnder : AreUnder v → AreUnder (vserver_down env v ip).0
  vserver_down-AreUnder u =
      let (services, active) = vserver_down_effect env v ip in
      rw services (taken_down_list-IsUnder v (vserver_down env v ip).0 ip v.services active u)

  pub vserver_down-IsOff : (key : ServiceKey) → IsOff v key → IsOff (vserver_down env v ip).0 key
  unfolding IsOff
  vserver_down-IsOff key off t found =
      let (services, active) = vserver_down_effect env v ip in
      elim (Option-cases (find key v.services)) [
        | inl missing ↦ absurd (ground (arith, find-taken_down key ip v.services))
        | inr (s, there) ↦
            let same : taken_down ip s ≡ t = ground (arith, find-taken_down key ip v.services) in
            ground (arith, active t.vip, off s there, (taken_down-keeps ip s).1)
      ]

  pub vserver_down-found :
      (key : ServiceKey) (s : Service)
      → find key v.services ≡ some s
      → s.vip ≡ ip
      → IsOff (vserver_down env v ip).0 key
  unfolding IsOff
  vserver_down-found key s there at t found =
      let (services, active) = vserver_down_effect env v ip in
      let same : taken_down ip s ≡ t = ground (arith, find-taken_down key ip v.services) in
      ground (arith, active t.vip, (taken_down-keeps ip s).1)
