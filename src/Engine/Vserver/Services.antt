-- ===== src/Engine/Vserver/Services.antt =====
-- engine/vserver.go: what `service.updateState` and `destination.updateState` settle.
use seesaw.Base.{
  ℕ, ◌≡◌, refl, sym, ◌∙◌, ◌⊎◌, inl, inr, Bool, true, false, not, ◌&&◌, some, ℕ_discrete, arith,
  ◌==◌,
}
use mathlib.Core.Path.{subst}
use seesaw.Engine.Vserver.Data.{ServiceKey, Service, Env}
use seesaw.Engine.Vserver.Service.{update_dests, service_up, service_health}
use seesaw.Engine.Vserver.State.{
  Vserver, find, replace, is_active, vserver_health, vserver_update_state, update_found_service,
}
use seesaw.Engine.Vserver.Settled.{
  IsServiceSettled, IsSettled, IsReady, AreBelow, AreBelow-AreDestsSettled,
  AreDestsSettled-AreBelow, service_up_settles, update_dest_list-AreDestsSettled,
}
use seesaw.Engine.Vserver.Addresses.{vserver_update_state-IsSettled}
use seesaw.Engine.Vserver.Found.{
  Focus, Focus-find, All-replace, vserver_health-replace_same, vserver_health-replace_up,
  vserver_health-replace_down,
}

-- A service one of whose destinations may have changed its health.
abbrev pub IsLoose : Vserver → Service → Type 0
IsLoose v s = (s.active ≡ (is_active v s.vip && s.healthy)) × AreBelow s.active s.dests

-- A vserver that is settled but for the destinations of the service under a key.
pub record IsSettledBut (env : Env) (v : Vserver) (key : ServiceKey) : Type 0 where
  pub addresses : (ip : ℕ) → is_active v ip ≡ vserver_health env ip false v.services
  pub services : Focus (IsLoose v) (IsServiceSettled v) key v.services

module _ (env : Env) (v : Vserver) (key : ServiceKey) (s : Service)
    (found : find key v.services ≡ some s) (but : IsSettledBut env v key) where
  loose : IsLoose v s
  loose = Focus-find (IsLoose v) (IsServiceSettled v) key v.services s but.services found

  abbrev with : Service → Vserver
  with s' = record v { services = replace key s' v.services }

  -- A write of a settled service, when the health of its address comes out as it was.
  with-IsSettled :
      (s' : Service)
      → s'.vip ≡ s.vip
      → IsServiceSettled v s'
      → vserver_health env s.vip false (replace key s' v.services)
        ≡ vserver_health env s.vip false v.services
      → IsSettled env (with s')
  with-IsSettled s' vip settled same =
      let elsewhere : (j : ℕ)
          → vserver_health env j false (replace key s' v.services)
            ≡ vserver_health env j false v.services =
        λ j. elim (ℕ_discrete s.vip j) [
          | yes e ↦
              subst
                (λ i.
                  vserver_health env i false (replace key s' v.services)
                  ≡ vserver_health env i false v.services)
                e same
          | no other ↦
              vserver_health-replace_same env j key s s' false v.services found vip
                (inl (ground arith))
        ] in
      record {
        addresses = λ j. but.addresses j ∙ sym (elsewhere j);
        services =
            All-replace (IsLoose v) (IsServiceSettled v) (IsServiceSettled v) key v.services s s'
              but.services found settled (λ x h. h);
      }

  unchanged_health : IsSettled env (with (update_dests s).0)
  unfolding update_dests
  unchanged_health =
      with-IsSettled (update_dests s).0 refl
        (loose.0, update_dest_list-AreDestsSettled s.ipvs_svc s.active s.dests)
        (vserver_health-replace_same env s.vip key s (update_dests s).0 false v.services found refl
          (inr refl))

  goes_up :
      s.healthy ≡ false
      → is_active v s.vip ≡ true
      → IsSettled env (with (service_up (record s { healthy = true })).0)
  unfolding service_up update_dests
  goes_up was up =
      let s' = (service_up (record s { healthy = true })).0 in
      let before = sym (but.addresses s.vip) ∙ up in
      with-IsSettled s' refl (ground arith, (service_up_settles (record s { healthy = true })).1)
        (vserver_health-replace_up env s.vip key s s' false v.services found refl refl was refl
            before
          ∙ sym before)

  stays_down :
      s.healthy ≡ true
      → is_active v s.vip ≡ false
      → IsSettled env (with (record s { healthy = false }))
  stays_down was down =
      let s' : Service = record s { healthy = false } in
      let before = sym (but.addresses s.vip) ∙ down in
      let off : s.active ≡ false = ground (arith, loose.0) in
      with-IsSettled s' refl
        (ground arith, rw off (AreBelow-AreDestsSettled s.dests (rw off at (loose.1))))
        (vserver_health-replace_down env s.vip key s s' false v.services found refl refl was refl
            before
          ∙ sym before)

  drives_address :
      (h : Bool)
      → s.healthy ≡ not h
      → is_active v s.vip ≡ not h
      → IsSettled env (vserver_update_state env (with (record s { healthy = h })) s.vip).0
  drives_address h was up =
      let s' : Service = record s { healthy = h } in
      vserver_update_state-IsSettled env (with s') s.vip
        (λ j other.
          but.addresses j
          ∙ sym
              (vserver_health-replace_same env j key s s' false v.services found refl (inl other)))
        (All-replace (IsLoose v) (IsServiceSettled v)
          (λ x. IsReady x × ((x.vip == s.vip) ≡ false → IsServiceSettled (with s') x)) key
          v.services s s' but.services found
          ((loose.1, λ e. absurd (ground (arith, loose.0))), λ other. absurd (ground arith))
          (λ x q. ((AreDestsSettled-AreBelow x.active x.dests q.1, λ _. q.1), λ _. q)))

  update_found_service_cases :
      let v' = (update_found_service env v key s).0 in
      let h = service_health env s in
      ((v' ≡ with (update_dests s).0)
        ⊎ ((s.healthy ≡ false)
            × (is_active v s.vip ≡ true)
            × (v' ≡ with (service_up (record s { healthy = true })).0)))
      ⊎ (((s.healthy ≡ true)
            × (is_active v s.vip ≡ false)
            × (v' ≡ with (record s { healthy = false })))
          ⊎ ((s.healthy ≡ not h)
              × (is_active v s.vip ≡ not h)
              × (v' ≡ (vserver_update_state env (with (record s { healthy = h })) s.vip).0)))
  unfolding update_found_service
  update_found_service_cases = ground arith

  -- `updateState` of a service settles the vserver.
  pub update_found_service-IsSettled : IsSettled env (update_found_service env v key s).0
  update_found_service-IsSettled = elim update_found_service_cases [
    | inl (inl e) ↦ rw e unchanged_health
    | inl (inr (was, up, e)) ↦ rw e (goes_up was up)
    | inr (inl (was, down, e)) ↦ rw e (stays_down was down)
    | inr (inr (was, up, e)) ↦ rw e (drives_address (service_health env s) was up)
  ]
