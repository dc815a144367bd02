-- ===== src/Watchdog/Stopping.antt =====
-- watchdog/core.go and watchdog/service.go: how the services stop when the watchdog shuts down.
use seesaw.Base.{
  ℕ, zero, suc, ◌+◌, ◌<◌, ◌≡◌, refl, ap, ◌⊎◌, inl, inr, true, false, not, some, List, [], ◌∷◌, ◌++◌,
  arith, ◌==◌, count, Bool-cases, Option-cases, lookup, insert, lookup-insert, ℕ_discrete,
}
use seesaw.Watchdog.Defs.{
  Service, Services, has, Round, run_once, restart, has_stopped, all_stopped, can_stop, stop,
  walk_returns,
}

-- The services whose `stop` has not begun, and all services. A `stop` goes through to its end when it
-- can, and until then the services go on being restarted.
pub data Step : List ℕ × Services → List ℕ × Services → Type 0 where
  stops :
      {services : Services}
      → (before after : List ℕ) (name : ℕ) (svc : Service) → lookup name services ≡ some svc
      → can_stop services svc ≡ true
      → Step (before ++ name ∷ after, services) (before ++ after, insert name (stop svc) services)
  restarts :
      {pending : List ℕ} {services : Services}
      → (name : ℕ) (svc : Service) (r : Round) → lookup name services ≡ some svc
      → Step (pending, services) (pending, insert name (restart svc r) services)

pub data Reach (s : List ℕ × Services) : List ℕ × Services → Type 0 where
  here : Reach s s
  next : {t u : List ℕ × Services} → Reach s t → Step t u → Reach s u

has-append :
    (n : ℕ) (before after : List ℕ) (m : ℕ)
    → has n (before ++ m ∷ after) ≡ false
    → ((m == n) ≡ false) × (has n (before ++ after) ≡ false)
has-append n [] after m h = ground arith
has-append n (b ∷ before) after m h = ground (arith, has-append n before after m)

restart-stopped : (svc : Service) (r : Round) → (restart svc r).stopped ≡ svc.stopped
unfolding restart run_once
restart-stopped svc r = ground arith

-- A service that nothing stops any more, and that has not stopped.
abbrev IsLeft : ℕ → List ℕ × Services → Type 0
IsLeft n (pending, services) = (has n pending ≡ false) × (has_stopped services n ≡ false)

Step-IsLeft : (n : ℕ) (s t : List ℕ × Services) → Step s t → IsLeft n s → IsLeft n t
Step-IsLeft n _ _ (stops {services} before after name svc found can) h =
    let (other, rest) = has-append n before after name h.0 in
    (rest, ground (arith, lookup-insert name n (stop svc) services))
Step-IsLeft n _ _ (restarts {pending} {services} name svc r found) h = (
  h.0,
  elim (ℕ_discrete name n) [
    | yes same ↦ ground (
      arith,
      lookup-insert name n (restart svc r) services,
      restart-stopped svc r,
      ap (λ i. lookup i services) same,
    )
    | no other ↦ ground (arith, lookup-insert name n (restart svc r) services)
  ],
)

Reach-IsLeft : (n : ℕ) {s t : List ℕ × Services} → Reach s t → IsLeft n s → IsLeft n t
Reach-IsLeft n here h = h
Reach-IsLeft n (next {t} {u} r st) h = Step-IsLeft n t u st (Reach-IsLeft n r h)

walk_returns-has_stopped :
    (services listed : Services) (n : ℕ) (svc : Service)
    → lookup n listed ≡ some svc
    → has_stopped services n ≡ false
    → walk_returns services listed ≡ false
unfolding walk_returns
walk_returns-has_stopped services [] n svc found left = absurd (ground arith)
walk_returns-has_stopped services ((m, s) ∷ rest) n svc found left = elim (ℕ_discrete m n) [
  | yes same ↦ ground (arith, ap (has_stopped services) same)
  | no other ↦ ground (arith, walk_returns-has_stopped services rest n svc)
]

-- Suppose that `stop` meets a service that never had a process: its binary is missing, or it still
-- waits for a dependency. Then `Walk` does not return, whatever the other services do after that and
-- even if the service gets its process then. The names of the services are distinct.
pub Reach-without_process :
    (services : Services) (before after : List ℕ) (n : ℕ) (svc : Service) (pending : List ℕ)
    (later : Services)
    → lookup n services ≡ some svc
    → svc.process ≡ false
    → svc.stopped ≡ false
    → has n (before ++ after) ≡ false
    → Reach (before ++ after, insert n (stop svc) services) (pending, later)
    → walk_returns later services ≡ false
unfolding stop
Reach-without_process services before after n svc pending later found never unstopped once r =
    let start : has_stopped (insert n (stop svc) services) n ≡ false =
      ground (arith, lookup-insert n n (stop svc) services) in
    walk_returns-has_stopped later services n svc found (Reach-IsLeft n r (once, start)).1

-- How many services `Walk` still waits for.
abbrev pub num_unstopped : Services → ℕ
num_unstopped = count (λ p. not p.1.stopped)

num_unstopped-insert :
    (services : Services) (n : ℕ) (svc t : Service)
    → lookup n services ≡ some svc
    → svc.stopped ≡ false
    → t.stopped ≡ true
    → num_unstopped services ≡ num_unstopped (insert n t services) + 1
num_unstopped-insert [] n svc t found was is = absurd (ground arith)
num_unstopped-insert ((m, s) ∷ rest) n svc t found was is =
    ground (arith, num_unstopped-insert rest n svc t)

all_stopped-cases :
    (services : Services) (names : List ℕ)
    → (all_stopped services names ≡ true)
      ⊎ ((d : ℕ) × (has d names ≡ true) × (has_stopped services d ≡ false))
all_stopped-cases services [] = inl refl
all_stopped-cases services (d ∷ ds) = elim (Bool-cases (has_stopped services d)) [
  | inr left ↦ inr (d, ground arith, left)
  | inl gone ↦ elim (all_stopped-cases services ds) [
    | inl all ↦ inl (ground arith)
    | inr (e, there, left) ↦ inr (e, ground arith, left)
  ]
]

-- A service that can stop now, and that had not.
abbrev pub CanGoOn : Services → ℕ → Service → Type 0
CanGoOn services n svc =
    (lookup n services ≡ some svc) × (svc.stopped ≡ false) × (can_stop services svc ≡ true)

module _ (services : Services) (rank : ℕ → ℕ)
    (ranked : (n d : ℕ) (svc : Service)
      → lookup n services ≡ some svc
      → has d svc.dependents ≡ true
      → rank d < rank n) where
  find_stoppable :
      (fuel n : ℕ)
      → rank n < fuel
      → has_stopped services n ≡ false
      → (m : ℕ) × (svc : Service) × CanGoOn services m svc
  unfolding can_stop
  find_stoppable zero n low left = absurd (omega (arith, low))
  find_stoppable (suc fuel) n low left = elim (Option-cases (lookup n services)) [
    | inl missing ↦ absurd (ground arith)
    | inr (svc, found) ↦ elim (all_stopped-cases services svc.dependents) [
      | inl all ↦ (n, svc, (found, ground arith, ground arith))
      | inr (d, there, still) ↦
          find_stoppable fuel d (omega (arith, low, ranked n d svc found there)) still
    ]
  ]

  -- Let every service have a process, and the dependencies have no cycle: a dependent has a lower rank.
  -- Unless a service that `Walk` waits for has stopped, there is a service whose `stop` can go through
  -- to its end, and this leaves one service less to wait for. So no order in which the services stop
  -- is stuck before `Walk` returns.
  pub stop-goes_on :
      ((n : ℕ) (svc : Service) → lookup n services ≡ some svc → svc.process ≡ true)
      → (n : ℕ) → has_stopped services n ≡ false
      → (m : ℕ) × (svc : Service) × CanGoOn services m svc
        × (num_unstopped services ≡ num_unstopped (insert m (stop svc) services) + 1)
  unfolding stop
  stop-goes_on running n left =
      let (m, svc, go) = find_stoppable (suc (rank n)) n (omega arith) left in
      let stopped : (stop svc).stopped ≡ true = ground (arith, running m svc go.0) in
      (m, svc, go, num_unstopped-insert services m svc (stop svc) go.0 go.1 stopped)
