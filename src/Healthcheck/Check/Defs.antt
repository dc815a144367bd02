-- ===== src/Healthcheck/Check/Defs.antt =====
-- healthcheck/core.go: `Check`, its status and one run of it.
use seesaw.Base.{
  ℕ, ◌+◌, Bool, true, false, ◌&&◌, Option, none, some, List, [], ◌∷◌, ◌++◌, ltb, leb, if◌then◌else◌,
  u64,
}

pub data State : Type 0 where
  unknown unhealthy healthy : State

abbrev pub same_state : State → State → Bool
same_state unknown unknown = true
same_state unhealthy unhealthy = true
same_state healthy healthy = true
same_state _ _ = false

abbrev pub is_healthy : State → Bool
is_healthy healthy = true
is_healthy _ = false

-- `error` is the number of its text, `none` for nil; texts are numbers.
pub record Result : Type 0 where
  pub message : ℕ
  pub success : Bool
  pub duration : ℕ
  pub err : Option ℕ

-- `Result.String`
abbrev pub result_text : Result → ℕ
result_text r = elim (r.err) [ none ↦ r.message | some e ↦ e ]

-- `has_checker` is that `Checker` is not nil.
pub record Config : Type 0 where
  pub id : ℕ
  pub has_checker : Bool
  pub interval : ℕ
  pub timeout : ℕ
  pub retries : ℕ

pub record Status : Type 0 where
  pub last_check : ℕ
  pub duration : ℕ
  pub failures : ℕ
  pub successes : ℕ
  pub state : State
  pub message : ℕ

pub record Notification : Type 0 where
  pub id : ℕ
  pub status : Status

pub record Check : Type 0 where
  pub config : Config
  pub dryrun : Bool
  pub start : ℕ
  pub failed : ℕ
  pub failures : ℕ
  pub successes : ℕ
  pub state : State
  pub result : Option Result

unfoldable pub new_check : Check
new_check = record {
  config = record { id = 0; has_checker = false; interval = 0; timeout = 0; retries = 0 };
  dryrun = false;
  start = 0;
  failed = 0;
  failures = 0;
  successes = 0;
  state = unknown;
  result = none;
}

-- `Check.Status`
unfoldable pub status : Check → Status
status hc = record {
  last_check = hc.start;
  duration = elim (hc.result) [ none ↦ 0 | some r ↦ r.duration ];
  failures = hc.failures;
  successes = hc.successes;
  state = hc.state;
  message = elim (hc.result) [ none ↦ 0 | some r ↦ result_text r ];
}

-- `Check.Notify`: what goes to the channel.
unfoldable pub notify : Check → Notification
unfolding status
notify hc = record { id = hc.config.id; status = status hc }

-- `execute`: the result of the checker, or a failure when it did not answer in time.
unfoldable pub execute : Check → ℕ → Option Result → Result
execute hc timed_out_text (some r) = r
execute hc timed_out_text none = record {
  message = timed_out_text;
  success = false;
  duration = hc.config.timeout;
  err = none;
}

-- The locked part of `healthcheck`: the counters, then the state with its retries.
unfoldable pub record_result : Check → ℕ → Result → Check
record_result hc start r =
    let counted : Check =
      if r.success
      then record hc {
        start = start;
        result = some r;
        failed = 0;
        successes = u64 (hc.successes + 1);
      }
      else record hc {
        start = start;
        result = some r;
        failed = u64 (hc.failed + 1);
        failures = u64 (hc.failures + 1);
      } in
    let retrying : Bool =
      is_healthy hc.state && (ltb 0 counted.failed && leb counted.failed hc.config.retries) in
    record counted {
      state = if retrying then healthy else if r.success then healthy else unhealthy;
    }

-- `healthcheck`: the new check, and the notification of a transition.
unfoldable pub healthcheck : Check → ℕ → Result → Result → Check × Option Notification
unfolding record_result notify
healthcheck hc start dry executed =
    let r : Result = if hc.dryrun then dry else executed in
    let hc' = record_result hc start r in
    if hc.config.has_checker
    then (hc', if same_state hc.state hc'.state then none else some (notify hc'))
    else (hc, none)

-- What the loop of `Run` reacts to, but for the quit channel, and the call of `Notify` that the manager
-- of the server makes for every check at each tick of its own.
pub data Event : Type 0 where
  ticked : (start : ℕ) (dry executed : Result) → Event
  updated : Config → Event
  notify_ticked : Event

abbrev pub to_list : Option Notification → List Notification
to_list none = []
to_list (some n) = n ∷ []

unfoldable pub step : Check → Event → Check × List Notification
unfolding healthcheck notify
step hc (ticked start dry executed) =
    let (hc', note) = healthcheck hc start dry executed in (hc', to_list note)
step hc (updated config) = (record hc { config = config }, [])
step hc notify_ticked = (hc, notify hc ∷ [])

-- The loop of `Run`: the check after the events, and what it notified, in order.
unfoldable pub run : Check → List Event → Check × List Notification
run hc [] = (hc, [])
run hc (e ∷ es) =
    let (hc', notes) = step hc e in let (hc'', more) = run hc' es in (hc'', notes ++ more)
