-- ===== src/Engine/Core/Vlans.antt =====
-- engine/core.go: which vservers run after a reload, and what a change of a VLAN does to them.
use mathlib.Core.Option as Option
use seesaw.Base.{
  ℕ, ◌≡◌, refl, sym, ap, subst, ◌∙◌, Bool, true, false, some, List, [], ◌∷◌, arith, ◌==◌,
  Bool-cases, Option-cases, inl, inr, AreKeysDistinct, lookup, insert, lookup-insert, is_some,
  ℕ_discrete,
}
use seesaw.Engine.Vserver.Data.{Env}
use seesaw.Engine.Vserver.Config.Data.{Vip, Config, Configured}
use seesaw.Engine.Vserver.Config.Vips.{unconfigure_vip, unconfigure_list, unconfigure_vips}
use seesaw.Engine.Core.Defs.{
  Running, Cluster, Engine, stop_unconfigured, spawn_new, distribute_all, is_current, update_config,
  update_configs, update_vservers, unconfigure_all, outdated, update_vlans,
}
use seesaw.Engine.Core.Reload.{
  core_of, distribute_all-core, core_of-is_some, lookup-stop_unconfigured, lookup-spawn_new,
}

lookup-unconfigure_all :
    (n : ℕ) (vs : List (ℕ × Running)) (r : Running)
    → lookup n vs ≡ some r
    → lookup n (unconfigure_all vs) ≡ some (record r { vserver = unconfigure_vips r.vserver })
lookup-unconfigure_all n [] r found = absurd (ground arith)
lookup-unconfigure_all n ((name, q) ∷ rest) r found = elim (Bool-cases (name == n)) [
  | inl here ↦
      let same : q ≡ r = Option.some-injective q r (rw (here) at found) in
      rw (here)
        (ap (λ (x : Running). some (record x { vserver = unconfigure_vips x.vserver })) same)
  | inr there ↦ rw (there) (lookup-unconfigure_all n rest r (rw (there) at found))
]

unconfigure_list-config :
    (c : Configured) (vips : List Vip) → (unconfigure_list c vips).config ≡ c.config
unfolding unconfigure_list unconfigure_vip
unconfigure_list-config c [] = refl
unconfigure_list-config c (vip ∷ vips) =
    unconfigure_list-config (unconfigure_vip c vip) vips ∙ ground arith

module _ (deep_equal : Config → Config → Bool) where
  -- The last loop changes nothing but what is queued.
  update_configs-is_some :
      (n : ℕ) (configs : List (ℕ × Config)) (vs : List (ℕ × Running))
      → is_some (lookup n (update_configs deep_equal configs vs)) ≡ is_some (lookup n vs)
  unfolding update_configs
  update_configs-is_some n [] vs = refl
  update_configs-is_some n ((name, config) ∷ rest) vs = elim (Option-cases (lookup name vs)) [
    | inl missing ↦ rw (missing, update_configs) (update_configs-is_some n rest vs)
    | inr (r, found) ↦ elim (ℕ_discrete name n) [
      | yes same ↦ ground (
        arith,
        update_configs-is_some n rest (insert name (update_config deep_equal r config) vs),
        lookup-insert name n (update_config deep_equal r config) vs,
        ap (λ i. lookup i vs) same,
      )
      | no other ↦ ground (
        arith,
        update_configs-is_some n rest (insert name (update_config deep_equal r config) vs),
        lookup-insert name n (update_config deep_equal r config) vs,
      )
    ]
  ]

  -- After `updateVservers`, exactly the vservers of the cluster configuration run, whatever ran before
  -- and whatever overrides the engine remembers.
  pub update_vservers-runs :
      (env : Env) (cluster : Cluster) (engine : Engine) (n : ℕ)
      → is_some (lookup n (update_vservers deep_equal env cluster engine).vservers)
        ≡ is_some (lookup n cluster.vservers)
  unfolding update_vservers
  update_vservers-runs env cluster engine n =
      let (kept, ma) = stop_unconfigured env cluster.vservers engine.vservers engine.fwm_alloc in
      let spawned = spawn_new ma cluster.vservers kept in
      ground (
        arith,
        update_configs-is_some n cluster.vservers (distribute_all engine.overrides spawned),
        core_of-is_some (lookup n (distribute_all engine.overrides spawned)) (lookup n spawned)
            (distribute_all-core n engine.overrides spawned),
        lookup-spawn_new ma cluster.vservers kept n,
        lookup-stop_unconfigured env cluster.vservers engine.vservers engine.fwm_alloc n,
      )

  update_config-current :
      (q : Running) (config : Config)
      → is_current deep_equal config q.vserver ≡ true
      → update_config deep_equal q config ≡ q
  unfolding update_config
  update_config-current q config now = ground arith

  -- A vserver whose configuration is the one it has is sent no update.
  update_configs-current :
      (n : ℕ) (configs : List (ℕ × Config)) (vs : List (ℕ × Running)) (r : Running)
      → core_of (lookup n vs) ≡ core_of (some r)
      → ((config : Config)
          → lookup n configs ≡ some config
          → is_current deep_equal config r.vserver ≡ true)
      → AreKeysDistinct configs
      → core_of (lookup n (update_configs deep_equal configs vs)) ≡ core_of (some r)
  unfolding update_configs update_config
  update_configs-current n [] vs r e current distinct = e
  update_configs-current n ((name, config) ∷ rest) vs r e current distinct =
      elim (Option-cases (lookup name vs)) [
        | inl missing ↦
            let other : (name == n) ≡ false = elim (ℕ_discrete name n) [
              | yes same ↦ absurd (ground (arith, e, ap (λ i. lookup i vs) same))
              | no ne ↦ ground arith
            ] in
            rw (missing, update_configs)
              (update_configs-current n rest vs r e (λ c f. current c (rw (other) f)) distinct.1)
        | inr (q, found) ↦ elim (ℕ_discrete name n) [
          | no other ↦
              let differ : (name == n) ≡ false = ground arith in
              rw (found, update_configs)
                (update_configs-current n rest (insert name (update_config deep_equal q config) vs)
                  r (ground (arith, e, lookup-insert name n (update_config deep_equal q config) vs))
                  (λ c f. current c (rw (differ) f)) distinct.1)
          | yes same ↦
              let here : (name == n) ≡ true = ground arith in
              let found' : lookup n vs ≡ some q = ap (λ i. lookup i vs) (sym same) ∙ found in
              let own : q.vserver ≡ r.vserver =
                ap (λ (p : Configured × List Config). p.0)
                  (Option.some-injective _ _ (ap core_of (sym found') ∙ e)) in
              let keep : update_config deep_equal q config ≡ q =
                update_config-current q config
                  (ap (is_current deep_equal config) own ∙ current config (rw (here) refl)) in
              rw (found, update_configs, keep)
                (update_configs-current n rest (insert name q vs) r
                  (ground (arith, e, lookup-insert name n q vs, found'))
                  (λ c f. absurd (ground (arith, f, distinct.0, ap (λ i. lookup i rest) same)))
                  distinct.1)
        ]
      ]

  -- Suppose that a VLAN changes, and that a vserver of the cluster runs with the configuration that the
  -- new cluster has for it. After `updateVLANs` and `updateVservers` its own addresses are taken off
  -- the interface, as by `unconfigureVIPs`; and no update of its configuration is queued, if none was.
  -- What overrides are queued for it is left open.
  pub update_vservers-update_vlans :
      (env : Env) (cluster : Cluster) (engine : Engine) (n : ℕ) (r : Running) (config : Config)
      → ((c : Config) → deep_equal c c ≡ true)
      → AreKeysDistinct cluster.vservers
      → (outdated cluster.vlans engine.vlans).2 ≡ true
      → lookup n engine.vservers ≡ some r
      → lookup n cluster.vservers ≡ some config
      → r.vserver.config ≡ some config
      → r.updates ≡ []
      → core_of
          (lookup n (update_vservers deep_equal env cluster (update_vlans cluster engine)).vservers)
        ≡ some (unconfigure_vips r.vserver, [])
  unfolding update_vservers update_vlans unconfigure_vips
  update_vservers-update_vlans env cluster engine n r config reflexive distinct changed runs wanted
        has no_update =
      let without : Running = record r { vserver = unconfigure_vips r.vserver } in
      let middle = (update_vlans cluster engine) in
      let given : lookup n middle.vservers ≡ some without =
        rw (changed) (lookup-unconfigure_all n engine.vservers r runs) in
      let (kept, ma) = stop_unconfigured env cluster.vservers middle.vservers middle.fwm_alloc in
      let spawned = spawn_new ma cluster.vservers kept in
      let stays : lookup n spawned ≡ some without = ground (
        arith,
        lookup-spawn_new ma cluster.vservers kept n,
        lookup-stop_unconfigured env cluster.vservers middle.vservers middle.fwm_alloc n,
      ) in
      let kept_updates : core_of (
            lookup n
              (update_vservers deep_equal env cluster (update_vlans cluster engine)).vservers)
          ≡ some (unconfigure_vips r.vserver, r.updates) =
        update_configs-current n cluster.vservers (distribute_all middle.overrides spawned) without
          (distribute_all-core n middle.overrides spawned ∙ ap core_of stays)
          (λ c f.
            let same : config ≡ c = Option.some-injective _ _ (sym wanted ∙ f) in
            subst (λ x. is_current deep_equal x without.vserver ≡ true) same
              (rw (is_current, unconfigure_list-config r.vserver r.vserver.vips ∙ has)
                (reflexive config)))
          distinct in
      kept_updates ∙ ap (λ us. some (unconfigure_vips r.vserver, us)) no_update
