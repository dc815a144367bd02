-- ===== src/Watchdog/Defs.antt =====
-- watchdog/core.go and watchdog/service.go: `Watchdog` and `Service`. The process of a service and the
-- clock are outside: what `runOnce` meets is its `Outcome`, and the time is an argument.
use seesaw.Base.{
  ℕ, ◌+◌, ◌*◌, Bool, true, false, not, ◌&&◌, ◌||◌, Option, none, some, List, [], ◌∷◌, ◌++◌, ◌==◌,
  ltb, if◌then◌else◌, u64, lookup, insert, is_some,
}

-- `started` and `stopped` are the channels of the same names, which hold one token or none, and which
-- a reader puts the token back into.
pub record Service : Type 0 where
  pub name : ℕ
  pub dependencies : List ℕ
  pub dependents : List ℕ
  pub process : Bool
  pub started : Bool
  pub stopped : Bool
  pub failures : ℕ
  pub total_failures : ℕ
  pub restarts : ℕ
  pub last_failure : ℕ
  pub last_restart : ℕ

-- `newService`
unfoldable pub new_service : ℕ → Service
new_service name = record {
  name = name;
  dependencies = [];
  dependents = [];
  process = false;
  started = false;
  stopped = false;
  failures = 0;
  total_failures = 0;
  restarts = 0;
  last_failure = 0;
  last_restart = 0;
}

abbrev pub Services : Type 0
Services = List (ℕ × Service)

abbrev pub has : ℕ → List ℕ → Bool
has n [] = false
has n (m ∷ ms) = if m == n then true else has n ms

-- A map of names, as the list of its keys.
abbrev pub add_name : ℕ → List ℕ → List ℕ
add_name n names = if has n names then names else names ++ n ∷ []

-- `AddDependency`
unfoldable pub add_dependency : Service → ℕ → Service
add_dependency svc name = record svc { dependencies = add_name name svc.dependencies }

-- `AddService`; `none` is its error.
unfoldable pub add_service : Services → ℕ → Option Services
add_service services name =
    if is_some (lookup name services) then none else some (insert name (new_service name) services)

-- One dependency of `mapDependencies`; `none` ends the process.
unfoldable pub map_dependency : Services → ℕ → ℕ → Option Services
map_dependency services name dep_name = elim (lookup dep_name services) [
  | none ↦ none
  | some dep ↦
      some (insert dep_name (record dep { dependents = add_name name dep.dependents }) services)
]

unfoldable pub map_list : Services → ℕ → List ℕ → Option Services
unfolding map_dependency
map_list services name [] = some services
map_list services name (dep_name ∷ rest) = elim (map_dependency services name dep_name) [
  | none ↦ none
  | some services' ↦ map_list services' name rest
]

-- The loop of `mapDependencies` over the services as they were; it changes no dependencies.
unfoldable pub map_services : Services → Services → Option Services
unfolding map_list
map_services services [] = some services
map_services services ((name, svc) ∷ rest) = elim (map_list services name svc.dependencies) [
  | none ↦ none
  | some services' ↦ map_services services' rest
]

-- `mapDependencies`
unfoldable pub map_dependencies : Services → Option Services
unfolding map_services
map_dependencies services = map_services services services

abbrev pub restart_backoff : ℕ
restart_backoff = 5000000000

abbrev pub restart_backoff_max : ℕ
restart_backoff_max = 60000000000

-- The delay before a restart; `none` is no delay.
unfoldable pub restart_delay : Service → Option ℕ
restart_delay svc =
    if ltb 0 svc.failures
    then some (
        if ltb restart_backoff_max (svc.failures * restart_backoff)
        then restart_backoff_max
        else svc.failures * restart_backoff)
    else none

-- What `runOnce` meets: no files or pipes, no process, or a process whose wait failed or which exited,
-- with success or not.
pub data Outcome : Type 0 where
  not_set_up not_started wait_failed : Outcome
  exited : Bool → Outcome

abbrev pub failed : Service → ℕ → Service
failed svc now = record svc {
  last_failure = now;
  failures = u64 (svc.failures + 1);
  total_failures = u64 (svc.total_failures + 1);
}

abbrev pub running : Service → Service
running svc = record svc { process = true; started = true }

-- `runOnce`, which returns at `now`.
unfoldable pub run_once : Service → Outcome → ℕ → Service
run_once svc not_set_up now = svc
run_once svc not_started now = failed svc now
run_once svc wait_failed now = failed (running svc) now
run_once svc (exited false) now = failed (running svc) now
run_once svc (exited true) now = record (running svc) { failures = 0 }

-- One round of the loop of `run` after the delay: what it meets, and when it begins and ends.
pub record Round : Type 0 where
  pub outcome : Outcome
  pub begin : ℕ
  pub end : ℕ

unfoldable pub restart : Service → Round → Service
unfolding run_once
restart svc r =
    run_once (record svc { restarts = u64 (svc.restarts + 1); last_restart = r.begin }) r.outcome
      r.end

-- The rounds that a service goes through before it is shut down.
unfoldable pub run : Service → List Round → Service
unfolding restart
run svc [] = svc
run svc (r ∷ rest) = run (restart svc r) rest

abbrev pub has_stopped : Services → ℕ → Bool
has_stopped services name = elim (lookup name services) [ none ↦ true | some svc ↦ svc.stopped ]

abbrev pub all_stopped : Services → List ℕ → Bool
all_stopped services [] = true
all_stopped services (name ∷ rest) = has_stopped services name && all_stopped services rest

-- When `stop` can go through to its end: at once without a process, and after all dependents with one.
unfoldable pub can_stop : Services → Service → Bool
can_stop services svc = not svc.process || all_stopped services svc.dependents

-- `stop`, from its start to its end; the process obeys SIGKILL.
unfoldable pub stop : Service → Service
stop svc = if not svc.process then svc else record svc { stopped = true }

-- `Walk` returns when it has seen a token of every service.
unfoldable pub walk_returns : Services → Services → Bool
walk_returns services [] = true
walk_returns services ((name, svc) ∷ rest) = has_stopped services name && walk_returns services rest
