-- ===== src/Healthcheck/Notifier/Defs.antt =====
-- healthcheck/core.go: the notification batch of a healthcheck server.
use seesaw.Base.{
  ℕ, zero, suc, ◌+◌, Bool, true, false, Option, none, some, List, [], ◌∷◌, ◌++◌, length, leb, ◌==◌,
  if◌then◌else◌,
}

pub record ServerConfig : Type 0 where
  pub batch_size : ℕ
  pub max_failures : ℕ

-- `timer`: a channel that has not fired yet is set.
pub record Server (A : Type 0) : Type 0 where
  pub config : ServerConfig
  pub batch : List A
  pub timer : Bool
  pub delivered : List A

unfoldable pub new_server : {A : Type 0} → ServerConfig → Server A
new_server cfg = record { config = cfg; batch = []; timer = false; delivered = [] }

-- The loop of `send`: whether the batch was taken, or `none` when the fuel runs out.
unfoldable pub send_loop : ℕ → ℕ → ℕ → (ℕ → Bool) → Option Bool
send_loop zero max_failures failures answers = none
send_loop (suc fuel) max_failures failures answers =
    let again = send_loop fuel max_failures (failures + 1) answers in
    if answers failures
    then some true
    else if leb max_failures (failures + 1)
    then some false
    else again

-- `send`; `none` is its error.
unfoldable pub send : {A : Type 0} → Server A → (ℕ → Bool) → Option (Server A)
unfolding send_loop
send s answers = elim (send_loop (s.config.max_failures + 1) s.config.max_failures 0 answers) [
  | some true ↦ some (record s { delivered = s.delivered ++ s.batch; batch = [] })
  | _ ↦ none
]

-- What `notifier` wakes up for, with the engine's answers to a batch that is sent then.
pub data Event (A : Type 0) : Type 0 where
  notified : A → (ℕ → Bool) → Event A
  timer_fired : (ℕ → Bool) → Event A

abbrev pub timer_off : {A : Type 0} → Option (Server A) → Option (Server A)
timer_off none = none
timer_off (some s) = some (record s { timer = false })

-- One round of the loop of `notifier`; `none` is its `log.Fatal`. A timer that is not set, or that
-- fired before, does not fire.
unfoldable pub step : {A : Type 0} → Server A → Event A → Option (Server A)
step s (notified n answers) =
    let s' = record s { batch = s.batch ++ n ∷ [] } in
    if length s'.batch == 1
    then some (record s' { timer = true })
    else if length s'.batch == s'.config.batch_size
    then timer_off (send s' answers)
    else some s'
step s (timer_fired answers) = if s.timer then timer_off (send s answers) else some s

unfoldable pub run : {A : Type 0} → Server A → List (Event A) → Option (Server A)
run s [] = some s
run s (e ∷ es) = elim (step s e) [ none ↦ none | some s' ↦ run s' es ]
