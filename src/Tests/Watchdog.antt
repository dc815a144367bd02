-- ===== src/Tests/Watchdog.antt =====
-- watchdog/: two services, of which the second depends on the first.
use seesaw.Base.{
  ℕ, ◌+◌, ◌<◌, ◌≡◌, refl, true, false, some, [], ◌∷◌, ◌==◌, arith, lookup, insert, if◌then◌else◌,
}
use seesaw.Watchdog.Defs.{
  Service, Services, new_service, run_once, restart, has, can_stop, stop, walk_returns,
  map_dependencies, add_dependency,
}
use seesaw.Watchdog.Stopping.{
  here, next, stops, CanGoOn, num_unstopped, Reach-without_process, stop-goes_on,
}

program : Unit {0}
unfolding new_service run_once restart can_stop stop walk_returns map_dependencies add_dependency
program = tt

-- Service 2 depends on service 1.
abbrev both : Services
both =
    (1, record (new_service 1) { process = true; dependents = 2 ∷ [] })
    ∷ (2, record (new_service 2) { process = true; dependencies = 1 ∷ [] })
    ∷ []

mapped :
    map_dependencies ((1, new_service 1) ∷ (2, add_dependency (new_service 2) 1) ∷ [])
    ≡ some (
        (1, record (new_service 1) { dependents = 2 ∷ [] })
        ∷ (2, record (new_service 2) { dependencies = 1 ∷ [] })
        ∷ [])
unfolding program
mapped = refl

-- Service 2 never got a process, and the other one stops after it.
abbrev missing : Services
missing = (1, record (new_service 1) { process = true }) ∷ (2, new_service 2) ∷ []

abbrev one_stopped : Services
one_stopped =
    (1, record (new_service 1) { process = true; stopped = true }) ∷ (2, new_service 2) ∷ []

Reach-without_process_example : walk_returns one_stopped missing ≡ false
unfolding program
Reach-without_process_example =
    Reach-without_process missing (1 ∷ []) [] 2 (new_service 2) [] one_stopped refl refl refl refl
      (next here (stops [] [] 1 (record (new_service 1) { process = true }) refl refl))

abbrev rank : ℕ → ℕ
rank n = if n == 1 then 1 else 0

both_ranked :
    (n d : ℕ) (svc : Service)
    → lookup n both ≡ some svc
    → has d svc.dependents ≡ true
    → rank d < rank n
unfolding program
both_ranked n d svc found there = ground arith

both_running : (n : ℕ) (svc : Service) → lookup n both ≡ some svc → svc.process ≡ true
both_running n svc found = ground arith

stop-goes_on_example :
    (m : ℕ) × (svc : Service) × CanGoOn both m svc
    × (num_unstopped both ≡ num_unstopped (insert m (stop svc) both) + 1)
unfolding program
stop-goes_on_example = stop-goes_on both rank both_ranked both_running 1 refl
