-- ===== src/Healthcheck/Check/Traces.antt =====
-- What the notifications of a check tell of it, after any events.
use seesaw.Base.{ℕ, suc, Bool, true, false, List, [], ◌∷◌, if◌then◌else◌}
use seesaw.Healthcheck.Check.Defs.{State, same_state, Notification, Check, Event, notify_ticked}

-- What a listener that starts from `s` believes after the notifications.
abbrev pub believed : State → List Notification → State
believed s [] = s
believed s (n ∷ ns) = believed n.status.state ns

-- How many notifications tell the state that the one before them told.
abbrev pub repeats : State → List Notification → ℕ
repeats s [] = 0
repeats s (n ∷ ns) =
    let rest = repeats n.status.state ns in if same_state n.status.state s then suc rest else rest

abbrev pub is_notify_tick : Event → Bool
is_notify_tick notify_ticked = true
is_notify_tick _ = false
