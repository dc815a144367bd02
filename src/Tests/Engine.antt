-- ===== src/Tests/Engine.antt =====
-- engine/vserver.go: a vserver with one service and two destinations.
use seesaw.Base.{ℕ, ◌≡◌, refl, true, false, List, [], ◌∷◌, ltb, ◌==◌}
use seesaw.Healthcheck.Check.Defs
use seesaw.Engine.Vserver.Data.{
  ipv4, dsr, wrr, VserverEntry, ServiceKey, Destination, Service, ipvs_service, ipvs_destination,
  Env,
}
use seesaw.Engine.Vserver.Events.{Event, check_notified, dest_overridden, override_disable, run}
use seesaw.Engine.Vserver.Settled.{IsSettled}
use seesaw.Engine.Vserver.Service.{
  service_up, service_down, service_health, update_dests, update_dest_list, update_dest, dest_up,
  dest_down,
}
use seesaw.Engine.Vserver.State.{
  VserverCheck, Vserver, vserver_health, find, is_active, vserver_up, vserver_down,
  vserver_update_state, update_services, update_service_list, update_service, update_found_service,
  service_update_state,
}
use seesaw.Engine.Vserver.Health.{vserver_health-any}
use seesaw.Base.{some, none}
use seesaw.Engine.Vserver.Events.{
  down_all, down_keys, down_one, handle, handle_check_notification, apply_status, for_dests,
  on_dest, update_found_dest, dest_health, all_checks_healthy,
}
use seesaw.Base.{All}
use seesaw.Engine.Vserver.Shutdown.{run-down_all}
use seesaw.Engine.Vserver.Histories.{IsFresh, run-IsSettled}

abbrev env : Env
env = record {
  is_anycast = λ ip. ip == 99;
  anycast_enabled = true;
  meets = λ up all watermark. ltb 0 up;
}

abbrev key : ServiceKey
key = record { af = ipv4; fwm = 0; proto = 6; port = 80 }

abbrev ventry : VserverEntry
ventry = record {
  port = 80;
  proto = 6;
  mode = dsr;
  scheduler = wrr;
  persistence = 0;
  one_packet = false;
  high_watermark = 0;
  low_watermark = 0;
  lower_threshold = 0;
  upper_threshold = 0;
  healthchecks = [];
}

abbrev dest_at : ℕ → Destination
dest_at ip = record {
  ip = ip;
  backend = record {
    hostname = ip;
    ipv4_addr = some ip;
    ipv6_addr = none;
    enabled = true;
    in_service = true;
    weight = 1;
  };
  ipvs_dst = ipvs_destination key ventry ip 1;
  weight = 1;
  checks = ip ∷ [];
  healthy = false;
  active = false;
}

abbrev web : Service
web = record {
  key = key;
  vip = 99;
  ventry = ventry;
  ipvs_svc = ipvs_service key 99 ventry;
  dests = dest_at 1 ∷ dest_at 2 ∷ [];
  healthy = false;
  active = false;
}

abbrev status_of : Defs.State → Defs.Status
status_of s = record {
  last_check = 1;
  duration = 1;
  failures = 0;
  successes = 1;
  state = s;
  message = 0;
}

abbrev check_of : ℕ → VserverCheck
check_of ip = record { status = status_of Defs.unknown; dests = (key, ip) ∷ [] }

abbrev configured : Vserver
configured = record {
  enabled = true;
  services = web ∷ [];
  checks = (1, check_of 1) ∷ (2, check_of 2) ∷ [];
  active = [];
  lb_vservers = [];
}

abbrev events : List Event
events =
    check_notified (record { key = 1; status = status_of Defs.healthy })
    ∷ check_notified (record { key = 2; status = status_of Defs.healthy })
    ∷ dest_overridden 1 override_disable
    ∷ check_notified (record { key = 2; status = status_of Defs.unhealthy })
    ∷ []

configured-IsFresh : IsFresh configured
configured-IsFresh = record { no_address = refl; all_down = ((refl, refl, (refl, (refl, tt))), tt) }

run-IsSettled_example : IsSettled env (run env configured events).0
run-IsSettled_example = run-IsSettled env configured events configured-IsFresh

abbrev half_healthy : List Service
half_healthy = record web { healthy = true } ∷ web ∷ []

vserver_health-any_example : vserver_health env 99 false half_healthy ≡ false
vserver_health-any_example = vserver_health-any env 99 half_healthy

abbrev ready : Service
ready = record web {
  healthy = true;
  dests = record (dest_at 1) { healthy = true } ∷ dest_at 2 ∷ [];
}

program : Unit {0}
unfolding service_up service_down service_health update_dests update_dest_list update_dest dest_up
    dest_down vserver_up vserver_down vserver_update_state update_services update_service_list
    update_service update_found_service service_update_state run down_all down_keys down_one handle
    handle_check_notification apply_status for_dests on_dest update_found_dest dest_health
    all_checks_healthy vserver_health
program = tt

abbrev recovery : List Event
recovery =
    check_notified (record { key = 1; status = status_of Defs.healthy })
    ∷ check_notified (record { key = 2; status = status_of Defs.healthy })
    ∷ []

abbrev stopped : Service
stopped = record web {
  healthy = true;
  dests = record (dest_at 1) { healthy = true } ∷ record (dest_at 2) { healthy = true } ∷ [];
}

was_up :
    find key (run env configured recovery).0.services
    ≡ some (record stopped {
      active = true;
      dests =
          record (dest_at 1) { healthy = true; active = true }
          ∷ record (dest_at 2) { healthy = true; active = true }
          ∷ [];
    })
unfolding program
was_up = refl

run-down_all_example :
    (is_active (down_all env (run env configured recovery).0).0 stopped.vip ≡ false)
    × (stopped.active ≡ false)
    × All (λ d. d.active ≡ false) stopped.dests
unfolding program
run-down_all_example = run-down_all env configured recovery key stopped configured-IsFresh refl
