-- ===== src/Engine/Vserver/Histories.antt =====
-- engine/vserver.go: sequences of notifications and overrides.
use seesaw.Base.{
  ℕ, ◌≡◌, refl, sym, ◌∙◌, ◌⊎◌, inl, inr, Bool, false, ◌&&◌, none, some, List, [], ◌∷◌, All, All-imp,
  arith, Bool-cases, Option-cases, lookup, insert,
}
use seesaw.Healthcheck.Check.Defs
use seesaw.Engine.Vserver.Data.{ServiceKey, Destination, Service, Op, Env}
use seesaw.Engine.Vserver.State.{VserverCheck, Vserver, find, is_active, vserver_health}
use seesaw.Engine.Vserver.Settled.{AreDestsSettled, IsServiceSettled, IsSettled}
use seesaw.Engine.Vserver.Found.{All-find}
use seesaw.Engine.Vserver.Runs.{All-find_dest, update_found_dest-IsSettled, override_dest-IsSettled}
use seesaw.Engine.Vserver.Events.{
  find_dest, update_found_dest, on_dest, for_dests, CheckNotification, apply_status,
  handle_check_notification, OverrideState, override_dest, handle_dest_override, all_refs, Event,
  check_notified, dest_overridden, handle, run,
}

abbrev Action : Type 0
Action = Vserver → ServiceKey → Service → Destination → Vserver × List Op

-- What an action must keep, at a destination that stands in its service in the vserver.
abbrev Keeps : Env → Action → Type 0
Keeps env act =
    (v : Vserver) (key : ServiceKey) (s : Service) (d : Destination)
    → IsSettled env v
    → find key v.services ≡ some s
    → d.active ≡ (s.active && d.healthy)
    → IsSettled env (act v key s d).0

module _ (env : Env) (act : Action) (keeps : Keeps env act) where
  on_found_dest-IsSettled :
      (v : Vserver) (key : ServiceKey) (ip : ℕ) (s : Service)
      → IsSettled env v
      → find key v.services ≡ some s
      → IsSettled env (on_dest act v (key, ip)).0
  unfolding on_dest
  on_found_dest-IsSettled v key ip s h found = elim (Option-cases (find_dest ip s.dests)) [
    | inl missing ↦ rw (found, missing, on_dest) h
    | inr (d, there) ↦
        rw (found, there, on_dest)
          (keeps v key s d h found (
            All-find_dest _ ip s.dests d there
              (All-find (IsServiceSettled v) key v.services s found h.services).1))
  ]

  on_dest-IsSettled :
      (v : Vserver) (key : ServiceKey) (ip : ℕ)
      → IsSettled env v
      → IsSettled env (on_dest act v (key, ip)).0
  unfolding on_dest
  on_dest-IsSettled v key ip h = elim (Option-cases (find key v.services)) [
    | inl missing ↦ rw (missing, on_dest) h
    | inr (s, found) ↦ on_found_dest-IsSettled v key ip s h found
  ]

  -- A loop over destinations keeps what its body keeps.
  for_dests-IsSettled :
      (v : Vserver) (rs : List (ServiceKey × ℕ))
      → IsSettled env v
      → IsSettled env (for_dests act v rs).0
  unfolding for_dests
  for_dests-IsSettled v [] h = h
  for_dests-IsSettled v ((key, ip) ∷ rs) h =
      for_dests-IsSettled (on_dest act v (key, ip)).0 rs (on_dest-IsSettled v key ip h)

module _ (env : Env) (v : Vserver) (h : IsSettled env v) where
  apply_status-IsSettled :
      (k : ℕ) (c : VserverCheck) (st : Defs.Status) → IsSettled env (apply_status env v k c st).0
  unfolding apply_status
  apply_status-IsSettled k c st =
      let v' : Vserver = record v { checks = insert k (record c { status = st }) v.checks } in
      let h' : IsSettled env v' = record { addresses = h.addresses; services = h.services } in
      elim (Bool-cases (Defs.same_state c.status.state st.state)) [
        | inl same ↦ rw same h'
        | inr other ↦ rw other (
            for_dests-IsSettled env (update_found_dest env)
              (λ w key s d settled found own.
                update_found_dest-IsSettled env w settled key s found d own)
              v' c.dests h')
      ]

  unknown_check :
      (n : CheckNotification)
      → lookup n.key v.checks ≡ none
      → (handle_check_notification env v n).0 ≡ v
  unfolding handle_check_notification
  unknown_check n unknown = elim (Bool-cases v.enabled) [
    | inl on ↦ simp (on, unknown, handle_check_notification)
    | inr off ↦ simp (off, handle_check_notification)
  ]

  known_check :
      (n : CheckNotification) (c : VserverCheck)
      → lookup n.key v.checks ≡ some c
      → ((handle_check_notification env v n).0 ≡ v)
        ⊎ ((handle_check_notification env v n).0 ≡ (apply_status env v n.key c n.status).0)
  unfolding handle_check_notification
  known_check n c known = elim (Bool-cases v.enabled) [
    | inl on ↦ inr (simp (on, known, handle_check_notification))
    | inr off ↦ inl (simp (off, handle_check_notification))
  ]

  handle_check_notification-IsSettled :
      (n : CheckNotification) → IsSettled env (handle_check_notification env v n).0
  handle_check_notification-IsSettled n = elim (Option-cases (lookup n.key v.checks)) [
    | inl unknown ↦ rw (unknown_check n unknown) h
    | inr (c, known) ↦ elim (known_check n c known) [
      | inl off ↦ rw off h
      | inr on ↦ rw on (apply_status-IsSettled n.key c n.status)
    ]
  ]

  handle_dest_override-IsSettled :
      (hostname : ℕ) (o : OverrideState) → IsSettled env (handle_dest_override env v hostname o).0
  unfolding handle_dest_override
  handle_dest_override-IsSettled hostname o =
      for_dests-IsSettled env (override_dest env hostname o)
        (λ v' key s d settled found own.
          override_dest-IsSettled env v' settled key s found d own hostname o)
        v (all_refs v.services) h

pub handle-IsSettled :
    (env : Env) (v : Vserver) (e : Event) → IsSettled env v → IsSettled env (handle env v e).0
unfolding handle
handle-IsSettled env v (check_notified n) h = handle_check_notification-IsSettled env v h n
handle-IsSettled env v (dest_overridden hostname o) h =
    handle_dest_override-IsSettled env v h hostname o

-- A vserver that was just configured: nothing is up, and nothing is known to be healthy.
pub record IsFresh (v : Vserver) : Type 0 where
  pub no_address : v.active ≡ []
  pub all_down :
      All
        (λ s. (s.active ≡ false) × (s.healthy ≡ false) × All (λ d. d.active ≡ false) s.dests)
        v.services

vserver_health_down :
    (env : Env) (ip : ℕ) (ss : List Service)
    → All (λ s. (s.active ≡ false) × (s.healthy ≡ false) × All (λ d. d.active ≡ false) s.dests) ss
    → vserver_health env ip false ss ≡ false
unfolding vserver_health
vserver_health_down env ip [] h = refl
vserver_health_down env ip (s ∷ ss) h = ground (arith, h.0.1, vserver_health_down env ip ss h.1)

down_dests :
    (up : Bool) (ds : List Destination)
    → up ≡ false
    → All (λ d. d.active ≡ false) ds
    → AreDestsSettled up ds
down_dests up [] e h = tt
down_dests up (d ∷ ds) e h = (ground (arith, h.0), down_dests up ds e h.1)

pub IsFresh-IsSettled : (env : Env) (v : Vserver) → IsFresh v → IsSettled env v
IsFresh-IsSettled env v f =
    let none_active = λ (ip : ℕ). let e : is_active v ip ≡ false = rw f.no_address refl in e in
    record {
      addresses = λ ip. none_active ip ∙ sym (vserver_health_down env ip v.services f.all_down);
      services =
          All-imp (λ s d. (rw (none_active s.vip) d.0, down_dests s.active s.dests d.0 d.2))
            v.services f.all_down;
    }

run_from-IsSettled :
    (env : Env) (v : Vserver) (es : List Event) → IsSettled env v → IsSettled env (run env v es).0
unfolding run
run_from-IsSettled env v [] h = h
run_from-IsSettled env v (e ∷ es) h =
    run_from-IsSettled env (handle env v e).0 es (handle-IsSettled env v e h)

-- Whatever check notifications and backend or destination overrides a freshly configured vserver
-- handles, in any order, after each of them it is settled: an address is up exactly if its services
-- make it healthy, a service exactly if it is healthy and its address is up, and a destination exactly
-- if it is healthy and its service is up.
pub run-IsSettled :
    (env : Env) (v : Vserver) (es : List Event) → IsFresh v → IsSettled env (run env v es).0
run-IsSettled env v es f = run_from-IsSettled env v es (IsFresh-IsSettled env v f)
