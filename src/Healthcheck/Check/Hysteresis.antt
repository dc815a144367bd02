-- ===== src/Healthcheck/Check/Hysteresis.antt =====
-- When a check changes its state.
use seesaw.Base.{
  ℕ, ◌+◌, ◌<◌, ◌≡◌, true, false, List, [], ◌∷◌, All, length, length-append, arith, leb, ltb,
  if◌then◌else◌, ◌&&◌,
}
use seesaw.Healthcheck.Check.Defs.{
  State, unhealthy, healthy, Check, record_result, Event, ticked, updated, notify_ticked, step, run,
}

-- A tick at which the checker, or the time limit, reports a failure.
abbrev pub IsFailure : Event → Type 0
IsFailure (ticked start dry executed) = executed.success ≡ false
IsFailure (updated config) = ⊥
IsFailure notify_ticked = ⊥

-- The state that goes with a count of failures in a row.
abbrev state_at : ℕ → ℕ → State
state_at failed retries = if leb failed retries then healthy else unhealthy

abbrev crossings : ℕ → ℕ → ℕ → ℕ
crossings before after retries = if leb before retries && ltb retries after then 1 else 0

step-failure :
    (hc : Check) (e : Event)
    → IsFailure e
    → hc.config.has_checker ≡ true
    → hc.dryrun ≡ false
    → hc.failed + 1 < 18446744073709551616
    → hc.state ≡ state_at hc.failed hc.config.retries
    → ((step hc e).0.state ≡ state_at (hc.failed + 1) hc.config.retries)
      × ((step hc e).0.failed ≡ hc.failed + 1)
      × ((step hc e).0.config.retries ≡ hc.config.retries)
      × ((step hc e).0.dryrun ≡ false)
      × ((step hc e).0.config.has_checker ≡ true)
      × (length (step hc e).1 ≡ crossings hc.failed (hc.failed + 1) hc.config.retries)
unfolding step record_result
step-failure hc (ticked start dry executed) f c d small at = ground arith
step-failure hc (updated config) f c d small at = absurd f
step-failure hc notify_ticked f c d small at = absurd f

run-failures :
    (hc : Check) (es : List Event)
    → All IsFailure es
    → hc.config.has_checker ≡ true
    → hc.dryrun ≡ false
    → hc.failed + length es < 18446744073709551616
    → hc.state ≡ state_at hc.failed hc.config.retries
    → ((run hc es).0.state ≡ state_at (hc.failed + length es) hc.config.retries)
      × (length (run hc es).1 ≡ crossings hc.failed (hc.failed + length es) hc.config.retries)
unfolding run
run-failures hc [] f c d small at = ground arith
run-failures hc (e ∷ es) f c d small at =
    let (state, failed, retries, dry, has, notes) = step-failure hc e f.0 c d (omega arith) at in
    let ih = run-failures (step hc e).0 es f.1 has dry (omega arith) (rw (failed, retries) state) in
    let all = length-append (step hc e).1 (run (step hc e).0 es).1 in
    (ground (arith, ih.0), ground (arith, ih.1, all))

-- A healthy check with a checker and no failure pending survives exactly its number of retries: after `n` failed
-- ticks in a row it is healthy if `n` is within the retries, and unhealthy otherwise; it has then
-- sent no notification in the first case, and exactly one in the second.
pub unhealthy_after_retries :
    (hc : Check) (es : List Event)
    → All IsFailure es
    → hc.config.has_checker ≡ true
    → hc.dryrun ≡ false
    → hc.state ≡ healthy
    → hc.failed ≡ 0
    → length es < 18446744073709551616
    → ((run hc es).0.state ≡ (if leb (length es) hc.config.retries then healthy else unhealthy))
      × (length (run hc es).1 ≡ (if leb (length es) hc.config.retries then 0 else 1))
unhealthy_after_retries hc es f c d up none_failed small =
    let (state, notes) = run-failures hc es f c d (omega arith) (ground arith) in
    (ground arith, ground arith)
