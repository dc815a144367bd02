-- ===== src/Engine/Vserver/Runs.antt =====
-- engine/vserver.go: a change of one destination, by its checks or by an override.
use seesaw.Base.{
  ℕ, ◌≡◌, refl, sym, ◌∙◌, ◌⊎◌, inl, inr, Bool, true, false, ◌&&◌, some, List, [], ◌∷◌, All, arith,
  ◌==◌, Bool-cases,
}
use mathlib.Core.Path.{subst}
use seesaw.Engine.Vserver.Data.{ServiceKey, Destination, Service, Env}
use seesaw.Engine.Vserver.State.{
  Vserver, find, replace, is_active, vserver_health, service_update_state,
}
use seesaw.Engine.Vserver.Service.{dest_up}
use seesaw.Engine.Vserver.Settled.{IsServiceSettled, IsSettled, AreDestsSettled-AreBelow}
use seesaw.Engine.Vserver.Found.{
  vserver_health-replace_same, find-same_key, find-replace, Focus-replace, All-find, replace-All,
}
use seesaw.Engine.Vserver.Services.{IsLoose, IsSettledBut, update_found_service-IsSettled}
use seesaw.Engine.Vserver.Events.{
  find_dest, replace_dest, dest_health, with_dest, update_found_dest, OverrideState, override_dest,
}

pub All-find_dest :
    (Q : Destination → Type 0) (ip : ℕ) (ds : List Destination) (d : Destination)
    → find_dest ip ds ≡ some d
    → All Q ds
    → Q d
All-find_dest Q ip [] d e q = absurd (ground arith)
All-find_dest Q ip (x ∷ ds) d e q = elim (Bool-cases (x.ip == ip)) [
  | inl here ↦ let same : x ≡ d = ground arith in subst Q same q.0
  | inr there ↦ All-find_dest Q ip ds d (rw there at e) q.1
]

All-replace_dest :
    (Q : Destination → Type 0) (ip : ℕ) (ds : List Destination) (d' : Destination)
    → Q d'
    → All Q ds
    → All Q (replace_dest ip d' ds)
All-replace_dest Q ip [] d' p q = tt
All-replace_dest Q ip (x ∷ ds) d' p q = elim (Bool-cases (x.ip == ip)) [
  | inl here ↦ rw here (p, q.1)
  | inr there ↦ rw there (q.0, All-replace_dest Q ip ds d' p q.1)
]

module _ (env : Env) (v : Vserver) (settled : IsSettled env v) (key : ServiceKey) (s : Service)
    (found : find key v.services ≡ some s) (d : Destination)
    (own : d.active ≡ (s.active && d.healthy)) where
  here : IsServiceSettled v s
  here = All-find (IsServiceSettled v) key v.services s found settled.services

  abbrev changed : Bool → Service
  changed h = with_dest s d.ip (record d { healthy = h })

  abbrev with_health : Bool → Vserver
  with_health h = record v { services = replace key (changed h) v.services }

  same_health :
      (s' : Service)
      → s'.vip ≡ s.vip
      → s'.healthy ≡ s.healthy
      → (j : ℕ) → is_active v j ≡ vserver_health env j false (replace key s' v.services)
  same_health s' vip healthy j =
      settled.addresses j
      ∙ sym (vserver_health-replace_same env j key s s' false v.services found vip (inr healthy))

  -- Any change of a destination's health leaves the rest for `service.updateState` to settle.
  with_health-IsSettledBut : (h : Bool) → IsSettledBut env (with_health h) key
  with_health-IsSettledBut h = record {
    addresses = same_health (changed h) refl refl;
    services =
        Focus-replace (IsLoose v) (IsServiceSettled v) key v.services s (changed h) found
          (find-same_key key v.services found)
          (
            here.0,
            All-replace_dest _ d.ip s.dests (record d { healthy = h }) (λ off. ground arith)
                (AreDestsSettled-AreBelow s.active s.dests here.1),
          )
          settled.services;
  }

  service_update_state-IsSettled :
      (h : Bool) → IsSettled env (service_update_state env (with_health h) key).0
  unfolding service_update_state
  service_update_state-IsSettled h =
      let found' =
        find-replace key v.services s (changed h) found (find-same_key key v.services found) in
      rw (found', service_update_state)
        (update_found_service-IsSettled env (with_health h) key (changed h) found'
          (with_health-IsSettledBut h))

  -- A destination whose service is settled as it is.
  write-IsSettled :
      (d' : Destination)
      → d'.active ≡ (s.active && d'.healthy)
      → IsSettled env (record v { services = replace key (with_dest s d.ip d') v.services })
  write-IsSettled d' ok = record {
    addresses = same_health (with_dest s d.ip d') refl refl;
    services =
        replace-All (IsServiceSettled v) key v.services (with_dest s d.ip d')
          (here.0, All-replace_dest _ d.ip s.dests d' ok here.1) settled.services;
  }

  update_found_dest_cases :
      let v' = (update_found_dest env v key s d).0 in
      let h = dest_health v d in
      let up : Destination = record d { healthy = true; active = true } in
      ((v' ≡ v) ⊎ (v' ≡ (service_update_state env (with_health h) key).0))
      ⊎ (((s.active ≡ true)
            × (v' ≡ record v { services = replace key (with_dest s d.ip up) v.services }))
          ⊎ ((s.active ≡ false) × (h ≡ false) × (v' ≡ with_health h)))
  unfolding update_found_dest dest_up
  update_found_dest_cases = ground arith

  -- `updateState` of a destination leaves the vserver settled.
  pub update_found_dest-IsSettled : IsSettled env (update_found_dest env v key s d).0
  update_found_dest-IsSettled = elim update_found_dest_cases [
    | inl (inl e) ↦ rw e settled
    | inl (inr e) ↦ rw e (service_update_state-IsSettled (dest_health v d))
    | inr (inl (up, e)) ↦
        rw e (write-IsSettled (record d { healthy = true; active = true }) (ground arith))
    | inr (inr (down, h, e)) ↦
        rw e (write-IsSettled (record d { healthy = dest_health v d }) (ground arith))
  ]

  override_dest_cases :
      (hostname : ℕ) (o : OverrideState)
      → let v' = (override_dest env hostname o v key s d).0 in
        (v' ≡ v)
        ⊎ ((v' ≡ (service_update_state env (with_health false) key).0)
            ⊎ (v' ≡ (service_update_state env (with_health true) key).0))
  unfolding override_dest
  override_dest_cases hostname o = ground arith

  pub override_dest-IsSettled :
      (hostname : ℕ) (o : OverrideState) → IsSettled env (override_dest env hostname o v key s d).0
  override_dest-IsSettled hostname o = elim (override_dest_cases hostname o) [
    | inl e ↦ rw e settled
    | inr (inl e) ↦ rw e (service_update_state-IsSettled false)
    | inr (inr e) ↦ rw e (service_update_state-IsSettled true)
  ]
