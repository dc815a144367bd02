-- ===== src/Watchdog/Restarts.antt =====
-- watchdog/service.go: the counters of a service that is restarted.
use seesaw.Base.{ℕ, ◌+◌, ◌≤◌, ◌<◌, ◌≡◌, refl, subst, true, false, List, [], ◌∷◌, arith, length, u64}
use seesaw.Watchdog.Defs.{
  Service, new_service, Outcome, not_set_up, not_started, wait_failed, exited, Round, run_once,
  restart, run,
}

-- The consecutive failures are among all failures, and these among the restarts.
abbrev AreCounted : Service → ℕ → Type 0
AreCounted svc rounds =
    (svc.failures ≤ svc.total_failures)
    × (svc.total_failures ≤ svc.restarts)
    × (svc.restarts ≡ rounds)

run_once-AreCounted :
    (svc : Service) (outcome : Outcome) (end rounds : ℕ)
    → rounds + 1 < 18446744073709551616
    → (svc.failures ≤ svc.total_failures)
      × (svc.total_failures ≤ rounds)
      × (svc.restarts ≡ rounds + 1)
    → AreCounted (run_once svc outcome end) (rounds + 1)
unfolding run_once
run_once-AreCounted svc not_set_up end rounds small h = ground arith
run_once-AreCounted svc not_started end rounds small h = ground arith
run_once-AreCounted svc wait_failed end rounds small h = ground arith
run_once-AreCounted svc (exited true) end rounds small h = ground arith
run_once-AreCounted svc (exited false) end rounds small h = ground arith

run-AreCounted :
    (svc : Service) (rounds : ℕ) (rs : List Round)
    → rounds + length rs < 18446744073709551616
    → AreCounted svc rounds
    → AreCounted (run svc rs) (rounds + length rs)
unfolding run restart
run-AreCounted svc rounds [] small h = ground (arith, h)
run-AreCounted svc rounds (r ∷ rest) small h =
    subst (AreCounted (run (restart svc r) rest)) (omega arith) (
      run-AreCounted (restart svc r) (rounds + 1) rest (omega arith) (
        run_once-AreCounted
          (record svc { restarts = u64 (svc.restarts + 1); last_restart = r.begin }) r.outcome r.end
          rounds (omega arith) (h.0, omega (arith, h.1, h.2), omega (arith, h.2))))

-- Whatever the rounds of a new service met, if there were fewer than 2^64: it has been restarted once
-- for each, its failures in a row are at most all of its failures, and these at most its restarts.
pub run-new_service :
    (name : ℕ) (rounds : List Round)
    → length rounds < 18446744073709551616
    → let svc = run (new_service name) rounds in
      (svc.failures ≤ svc.total_failures)
      × (svc.total_failures ≤ svc.restarts)
      × (svc.restarts ≡ length rounds)
unfolding new_service
run-new_service name rounds small =
    subst (AreCounted (run (new_service name) rounds)) (omega arith)
      (run-AreCounted (new_service name) 0 rounds (omega arith) (omega arith, omega arith, refl))
