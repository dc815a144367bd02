-- ===== src/Tests/Healthchecks.antt =====
-- The healthcheck manager of the engine, at concrete checks.
use seesaw.Base.{ℕ, ◌+◌, ◌≡◌, refl, false, Option, none, some, List, [], ◌∷◌, uses}
use seesaw.Engine.Marks.Allocation.{occurrences}
use seesaw.Engine.Healthchecks.Keys
use seesaw.Engine.Healthchecks.Keys.{
  CheckKey, Healthcheck, HealthcheckMode, plain, mark_key_eq, checker_key_eq,
}
use seesaw.Engine.Healthchecks.Checkers.{Texts, new_config, new_checker}
use seesaw.Engine.Healthchecks.Defs.{
  Check, Manager, Event, updated, enabled, disabled, new_manager, run, update, all_checks,
}
use seesaw.Engine.Healthchecks.Histories.{run-new_manager_marks}

program : Unit {0}
unfolding update new_manager run all_checks new_config new_checker Keys.dedup
program = tt

abbrev texts : Texts
texts = record {
  get_method = 1;
  root_path = 2;
  accept = 3;
  dns_type = λ name. none;
  split = λ text. [];
}

abbrev tcp_healthcheck : Healthcheck
tcp_healthcheck = record {
  name = 0;
  mode = plain;
  type = Keys.tcp;
  port = 80;
  interval = 10;
  timeout = 5;
  retries = 1;
  send = 0;
  receive = 0;
  code = 0;
  proxy = false;
  method = 0;
  secure = false;
  tls_verify = false;
}

-- A check of backend 7 for a service of the given port.
abbrev check_of : ℕ → CheckKey × Check
check_of port =
    let key : CheckKey = record {
      vserver_ip = 9;
      backend_ip = 7;
      service_port = port;
      service_proto = 6;
      mode = plain;
      type = Keys.tcp;
      port = 80;
      name = 0;
    } in
    (key, record { key = key; vserver = 1; healthcheck = tcp_healthcheck })

abbrev result_of : Option Manager → Manager
result_of none = new_manager 0
result_of (some h) = h

abbrev two_checks : Manager
two_checks = result_of (update texts (new_manager 5) 1 (some (check_of 80 ∷ check_of 443 ∷ [])))

abbrev history : List Event
history = updated 1 (some (check_of 80 ∷ [])) ∷ disabled ∷ updated 1 none ∷ enabled ∷ []

two_checks_built :
    update texts (new_manager 5) 1 (some (check_of 80 ∷ check_of 443 ∷ [])) ≡ some two_checks
unfolding program
two_checks_built = refl

run-new_manager_marks_example :
    uses 65536 (result_of (run texts (new_manager 5) history)).table.marks
      + occurrences 65536 (result_of (run texts (new_manager 5) history)).table.mark_alloc.marks
    ≡ 1
unfolding program
run-new_manager_marks_example =
    run-new_manager_marks texts 5 history (result_of (run texts (new_manager 5) history)) 65536 refl
