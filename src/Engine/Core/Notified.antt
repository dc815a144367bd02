-- ===== src/Engine/Core/Notified.antt =====
-- engine/core.go: what a notification of a cluster configuration leaves running, and what the ARP map
-- announces.
use seesaw.Base.{
  ℕ, suc, ◌+◌, ◌≡◌, refl, ap, ◌∙◌, Bool, true, false, ◌&&◌, Option, none, some, List, [], ◌∷◌, ◌++◌,
  arith, ◌==◌, Bool-cases, Option-cases, inl, inr, if◌then◌else◌, lookup, is_some,
}
use seesaw.Ha.Node.Defs.{disabled, same_state}
use seesaw.Engine.HaManager.Defs.{HaManager, set_state, enable, disable}
use seesaw.Engine.Vserver.Data.{Env}
use seesaw.Engine.Vserver.Config.Data.{Vip, Config}
use seesaw.Engine.Core.Defs.{Vlan, Cluster, delete_vlans, shutdown_vservers}
use seesaw.Engine.Core.Vlans.{update_vservers-runs}
use seesaw.Engine.Core.Manager.{
  Node, Settings, Notification, State, this_node, ha_enabled, run_update, interface_of,
  is_announced, reload, handle_notification,
}

-- Whether vservers may run after a notification; `none` if it changes nothing about them.
abbrev pub wanted : Settings → Notification → Option Bool
wanted settings n =
    if n.metadata_only
    then none
    else elim (this_node settings n.nodes) [ none ↦ none | some node ↦ some node.vservers_enabled ]

enable-state : (h : HaManager) (now : ℕ) → same_state (enable h now).status.state disabled ≡ false
unfolding enable set_state
enable-state h now = ground arith

disable-state : (h : HaManager) (now : ℕ) → same_state (disable h now).status.state disabled ≡ true
unfolding disable set_state
disable-state h now = ground arith

ha_enabled-state :
    (node : Node) (h : HaManager) (now : ℕ)
    → same_state (if ha_enabled node then enable h now else disable h now).status.state disabled
      ≡ same_state node.state disabled
ha_enabled-state node h now = elim (Bool-cases (same_state node.state disabled)) [
  | inl off ↦ rw (off) (disable-state h now)
  | inr on ↦ rw (on) (enable-state h now)
]

module _ (contains : Vlan → ℕ → Bool) (is_ipv4 : ℕ → Bool) where
  -- The addresses of these VIPs that belong to an interface, in their order.
  abbrev pub vips_at : ℕ → List (ℕ × Vlan) → List Vip → List ℕ
  vips_at i vlans [] = []
  vips_at i vlans (vip ∷ vips) =
      (if is_announced contains is_ipv4 vip && interface_of contains is_ipv4 vlans vip.ip == i
        then vip.ip ∷ []
        else [])
      ++ vips_at i vlans vips

  abbrev pub configs_at : ℕ → List (ℕ × Vlan) → List (ℕ × Config) → List ℕ
  configs_at i vlans [] = []
  configs_at i vlans ((name, config) ∷ configs) =
      vips_at i vlans config.vips ++ configs_at i vlans configs

  module _ (env : Env) (settings : Settings) where
    reload-ha_manager :
        (s : State) (n : Notification) (enabled : Bool)
        → (reload contains is_ipv4 env settings s n enabled).ha_manager ≡ s.ha_manager
    unfolding reload
    reload-ha_manager s n true = refl
    reload-ha_manager s n false = refl

    reload-cluster :
        (s : State) (n : Notification) (enabled : Bool)
        → (reload contains is_ipv4 env settings s n enabled).cluster ≡ s.cluster
    unfolding reload
    reload-cluster s n true = refl
    reload-cluster s n false = refl

    handle_notification-cluster :
        (s : State) (n : Notification) (now : ℕ)
        → (handle_notification contains is_ipv4 env settings s n now).cluster ≡ n.cluster
    unfolding handle_notification
    handle_notification-cluster s n now = elim (Bool-cases n.metadata_only) [
      | inl only ↦ rw (only) refl
      | inr more ↦ elim (Option-cases (this_node settings n.nodes)) [
        | inl unknown_node ↦ rw (more, unknown_node) refl
        | inr (node, found) ↦ rw (more, found) (reload-cluster _ n node.vservers_enabled)
      ]
    ]

    handle_notification-starting :
        (s : State) (n : Notification) (now : ℕ)
        → (handle_notification contains is_ipv4 env settings s n now).starting
          ≡ s.starting
            + (elim (wanted settings n) [ none ↦ 0 | some enabled ↦ if enabled then 1 else 0 ])
    unfolding handle_notification reload
    handle_notification-starting s n now = elim (Bool-cases n.metadata_only) [
      | inl only ↦ rw (only) (omega arith)
      | inr more ↦ elim (Option-cases (this_node settings n.nodes)) [
        | inl unknown_node ↦ rw (more, unknown_node) (omega arith)
        | inr (node, found) ↦ elim (Bool-cases node.vservers_enabled) [
          | inl on ↦ rw (more, found, on) refl
          | inr off ↦ rw (more, found, off) (omega arith)
        ]
      ]
    ]

    handle_notification-off :
        (s : State) (n : Notification) (now name : ℕ)
        → wanted settings n ≡ some false
        → is_some (
            lookup name (handle_notification contains is_ipv4 env settings s n now).engine.vservers)
          ≡ false
    unfolding handle_notification reload shutdown_vservers delete_vlans
    handle_notification-off s n now name off = elim (Bool-cases n.metadata_only) [
      | inl only ↦ absurd (ground (arith, off))
      | inr more ↦ elim (Option-cases (this_node settings n.nodes)) [
        | inl unknown_node ↦ absurd (ground (arith, off))
        | inr (node, found) ↦
            let disabled_here : node.vservers_enabled ≡ false = ground (arith, off) in
            rw (more, found, disabled_here) refl
      ]
    ]

    run_update-runs :
        (deep_equal : Config → Config → Bool) (s : State) (k : ℕ) (name : ℕ)
        → s.starting ≡ suc k
        → is_some (lookup name (run_update deep_equal env s).engine.vservers)
          ≡ is_some (lookup name s.cluster.vservers)
    unfolding run_update
    run_update-runs deep_equal s k name some_starting =
        rw (some_starting) (update_vservers-runs deep_equal env s.cluster s.engine name)

    -- After a notification with more than metadata, of a cluster in which the vservers of the local node
    -- are enabled, one more goroutine is to update the vservers, and when one has run, exactly the vservers
    -- of the cluster run.
    pub handle_notification-runs :
        (deep_equal : Config → Config → Bool) (s : State) (n : Notification) (now name : ℕ)
        → wanted settings n ≡ some true
        → let s' = handle_notification contains is_ipv4 env settings s n now in
          (s'.starting ≡ s.starting + 1)
          × (is_some (lookup name (run_update deep_equal env s').engine.vservers)
              ≡ is_some (lookup name n.cluster.vservers))
    handle_notification-runs deep_equal s n now name want =
        let s' = handle_notification contains is_ipv4 env settings s n now in
        let one_more : s'.starting ≡ s.starting + 1 =
          ground (arith, handle_notification-starting s n now, want) in
        (
          one_more,
          run_update-runs deep_equal s' s.starting name (omega (arith, one_more))
              ∙ ap (λ (c : Cluster). is_some (lookup name c.vservers))
                  (handle_notification-cluster s n now),
        )

    -- Suppose that a goroutine for the vservers has not run yet when a notification comes by which the
    -- vservers of the local node are no longer enabled. No vserver runs at first; but when the goroutine
    -- runs then, all the vservers of the cluster run.
    pub run_update-late :
        (deep_equal : Config → Config → Bool) (s : State) (n : Notification) (k now name : ℕ)
        → wanted settings n ≡ some false
        → s.starting ≡ suc k
        → let s' = handle_notification contains is_ipv4 env settings s n now in
          (is_some (lookup name s'.engine.vservers) ≡ false)
          × (is_some (lookup name (run_update deep_equal env s').engine.vservers)
              ≡ is_some (lookup name n.cluster.vservers))
    run_update-late deep_equal s n k now name off pending =
        let s' = handle_notification contains is_ipv4 env settings s n now in
        let still : s'.starting ≡ suc k =
          ground (arith, handle_notification-starting s n now, off, pending) in
        (
          handle_notification-off s n now name off,
          run_update-runs deep_equal s' k name still
              ∙ ap (λ (c : Cluster). is_some (lookup name c.vservers))
                  (handle_notification-cluster s n now),
        )

    -- After a notification with more than metadata, of a cluster in which the local node is found, the HA
    -- manager's state is that it is disabled exactly if the node's state is that in the configuration.
    pub handle_notification-disabled :
        (s : State) (n : Notification) (node : Node) (now : ℕ)
        → n.metadata_only ≡ false
        → this_node settings n.nodes ≡ some node
        → same_state
            (handle_notification contains is_ipv4 env settings s n now).ha_manager.status.state
            disabled
          ≡ same_state node.state disabled
    unfolding handle_notification
    handle_notification-disabled s n node now more found =
        rw (more, found)
          (ap (λ (h : HaManager). same_state h.status.state disabled)
              (reload-ha_manager _ n node.vservers_enabled)
            ∙ ha_enabled-state node s.ha_manager now)
