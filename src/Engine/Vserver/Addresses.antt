-- ===== src/Engine/Vserver/Addresses.antt =====
-- engine/vserver.go: what `vserver.updateState` settles.
use seesaw.Base.{
  ℕ, ◌≡◌, refl, ap, true, false, All, All-imp, ℕ_discrete, arith, ◌==◌, if◌then◌else◌, insert,
  remove, lookup-insert, lookup-remove,
}
use seesaw.Engine.Vserver.Data.{Env}
use seesaw.Engine.Vserver.State.{
  Vserver, is_active, vserver_health, update_service_list, update_services, vserver_up,
  vserver_down, vserver_update_state,
}
use seesaw.Engine.Vserver.Settled.{
  IsServiceSettled, IsSettled, IsReady, vserver_health-update_service_list,
  update_service_list_settles,
}

module _ (env : Env) (v : Vserver) (ip : ℕ) where
  vserver_up_effect :
      let v' = (vserver_up env v ip).0 in
      (v'.services ≡ (update_service_list true ip v.services).0)
      × ((j : ℕ) → is_active v' j ≡ (if ip == j then true else is_active v j))
  unfolding vserver_up update_services
  vserver_up_effect =
      let here : is_active (record v { active = insert ip true v.active }) ip ≡ true =
        ground (arith, lookup-insert ip ip true v.active) in
      (ground arith, λ j. ground (arith, lookup-insert ip j true v.active))

  pub vserver_down_effect :
      let v' = (vserver_down env v ip).0 in
      (v'.services ≡ (update_service_list false ip v.services).0)
      × ((j : ℕ) → is_active v' j ≡ (if ip == j then false else is_active v j))
  unfolding vserver_down update_services
  vserver_down_effect =
      let here : is_active (record v { active = remove ip v.active }) ip ≡ false =
        ground (arith, lookup-remove ip ip v.active) in
      (ground arith, λ j. ground (arith, lookup-remove ip j v.active))

  update_services_effect :
      let v' = (update_services v ip).0 in
      (v'.services ≡ (update_service_list (is_active v ip) ip v.services).0)
      × ((j : ℕ) → is_active v' j ≡ is_active v j)
  unfolding update_services
  update_services_effect = (refl, λ j. refl)

  -- What `updateState` does to the map and to the services, whichever way it goes.
  pub update_state_effect :
      let up = vserver_health env ip false v.services in
      let v' = (vserver_update_state env v ip).0 in
      (v'.services ≡ (update_service_list up ip v.services).0)
      × ((j : ℕ) → is_active v' j ≡ (if ip == j then up else is_active v j))
  unfolding vserver_update_state
  update_state_effect = (
    ground (arith, vserver_up_effect.0, vserver_down_effect.0, update_services_effect.0),
    λ j. elim (ℕ_discrete ip j) [
      | yes e ↦ ground (
        arith,
        vserver_up_effect.1 j,
        vserver_down_effect.1 j,
        update_services_effect.1 j,
        ap (is_active v) e,
      )
      | no other ↦
          ground (arith, vserver_up_effect.1 j, vserver_down_effect.1 j, update_services_effect.1 j)
    ],
  )

  -- `updateState` settles an address whose services are ready for it, if all else is settled.
  pub vserver_update_state-IsSettled :
      ((j : ℕ) → (ip == j) ≡ false → is_active v j ≡ vserver_health env j false v.services)
      → All (λ s. IsReady s × ((s.vip == ip) ≡ false → IsServiceSettled v s)) v.services
      → IsSettled env (vserver_update_state env v ip).0
  vserver_update_state-IsSettled elsewhere pending =
      let up = vserver_health env ip false v.services in
      let v' = (vserver_update_state env v ip).0 in
      let (services, active) = update_state_effect in
      let same_health =
        λ (j : ℕ). vserver_health-update_service_list env j false up ip v.services in
      record {
        addresses = λ j. elim (ℕ_discrete ip j) [
          | yes e ↦ rw services (
              ground (
                arith,
                active j,
                same_health j,
                ap (λ (i : ℕ). vserver_health env i false v.services) e,
              ))
          | no other ↦ rw services (ground (arith, active j, same_health j, elsewhere j))
        ];
        services = rw services (
            update_service_list_settles v' up ip v.services (ground (arith, active ip)) (
              All-imp
                (λ s p.
                  (p.0, λ other. (ground (arith, active s.vip, (p.1 other).0), (p.1 other).1)))
                v.services pending));
      }
