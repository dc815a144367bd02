-- ===== src/Tests/Healthcheck.antt =====
-- healthcheck/core.go: one check, one notifier and one manager.
use seesaw.Base.{
  ℕ, ◌≡◌, refl, Bool, true, false, none, some, List, [], ◌∷◌, arith, ◌++◌, length, ltb,
}
use seesaw.Healthcheck.Check.Defs.{
  unhealthy, Result, Config, Check, new_check, Event, ticked, updated, run, step, healthcheck,
  record_result, notify, status,
}
use seesaw.Healthcheck.Check.Hysteresis.{unhealthy_after_retries}
use seesaw.Healthcheck.Notifier.Defs
use seesaw.Healthcheck.Notifier.Batches.{queued, Inv, run-new_server_conserves}
use seesaw.Healthcheck.Manager.Defs.{Runners, Configs, new_runner}

program : Unit {0}
unfolding new_check run step healthcheck record_result notify status Defs.new_server Defs.send_loop
    Defs.send Defs.step Defs.run
program = tt

abbrev passed : Result
passed = record { message = 1; success = true; duration = 5; err = none }

abbrev refused : Result
refused = record { message = 2; success = false; duration = 9; err = some 3 }

abbrev config : Config
config = record { id = 7; has_checker = true; interval = 100; timeout = 50; retries = 1 }

abbrev up_since : Check
unfolding program
up_since = (run new_check (updated config ∷ ticked 10 passed passed ∷ [])).0

abbrev outage : List Event
outage = ticked 20 passed refused ∷ ticked 30 passed refused ∷ []

unhealthy_after_retries_example :
    ((run up_since outage).0.state ≡ unhealthy) × (length (run up_since outage).1 ≡ 1)
unfolding program
unhealthy_after_retries_example =
    unhealthy_after_retries up_since outage (refl, (refl, tt)) refl refl refl refl (omega arith)

abbrev pair_config : Defs.ServerConfig
pair_config = record { batch_size = 2; max_failures = 3 }

abbrev second_try : ℕ → Bool
second_try i = ltb 0 i

abbrev traffic : List (Defs.Event ℕ)
traffic = Defs.notified 5 second_try ∷ Defs.notified 6 second_try ∷ Defs.notified 7 second_try ∷ []

abbrev after_traffic : Defs.Server ℕ
after_traffic = record {
  config = pair_config;
  batch = 7 ∷ [];
  timer = true;
  delivered = 5 ∷ 6 ∷ [];
}

run-new_server_conserves_example :
    (after_traffic.delivered ++ after_traffic.batch ≡ queued traffic) × Inv after_traffic
unfolding program
run-new_server_conserves_example =
    run-new_server_conserves {A = ℕ} pair_config after_traffic traffic refl

abbrev single : Defs.Server ℕ
unfolding program
single = Defs.new_server (record { batch_size = 1; max_failures = 3 })

abbrev running_checks : Runners
running_checks = (1, new_runner false) ∷ (2, new_runner false) ∷ []

abbrev wanted : Configs
wanted = (2, config) ∷ (7, config) ∷ []
