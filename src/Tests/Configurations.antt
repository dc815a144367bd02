-- ===== src/Tests/Configurations.antt =====
-- engine/vserver.go: a vserver of one entry that takes on configurations.
use seesaw.Base.{
  ℕ, ◌≡◌, refl, Bool, true, false, Option, none, some, List, [], ◌∷◌, arith, ◌==◌, ltb,
}
use seesaw.Healthcheck.Check.Defs
use seesaw.Engine.Marks.Defs.{MarkAllocator}
use seesaw.Engine.Healthchecks.Keys.{CheckKey, Healthcheck, plain, tcp, check_key_eq}
use seesaw.Engine.Vserver.Data.{
  ipv4, ipv6, dsr, wrr, Backend, VserverEntry, Destination, Service, Env, ipvs_service,
  ipvs_destination,
}
use seesaw.Engine.Vserver.Service.{
  service_up, service_down, service_health, update_dests, update_dest_list, update_dest, dest_up,
  dest_down,
}
use seesaw.Engine.Vserver.State.{
  Vserver, is_active, vserver_health, vserver_up, vserver_down, vserver_update_state,
  update_services, update_service_list, update_service, update_found_service, service_update_state,
}
use seesaw.Engine.Vserver.Settled.{IsSettled}
use seesaw.Engine.Vserver.Health.{vserver_health-any}
use seesaw.Engine.Vserver.Events.{
  override_dest, override_default, handle_check_notification, apply_status, handle_dest_override,
  for_dests, on_dest, update_found_dest, dest_health, all_checks_healthy,
}
use seesaw.Engine.Vserver.Config.Data.{
  Config, Configured, unicast_vip, new_vserver, vserver_enabled,
}
use seesaw.Engine.Vserver.Config.Expand.{
  new_service, new_dest, expand_dests, expand_services, expand_family, expand_entries, find_vip,
}
use seesaw.Engine.Vserver.Config.Checks.{expand_checks, expand_services_checks, new_check_key}
use seesaw.Engine.Vserver.Config.Vips.{configure_vips}
use seesaw.Engine.Vserver.Config.Services.{take_down, delete_service}
use seesaw.Engine.Vserver.Config.Update.{config_init, handle_config_update}
use seesaw.Engine.Vserver.Config.Run.{
  Event, config_updated, check_notified, dest_overridden, run, handle, notify,
}

program : Unit {0}
unfolding service_up service_down service_health update_dests update_dest_list update_dest dest_up
    dest_down vserver_up vserver_down vserver_update_state update_services update_service_list
    update_service update_found_service service_update_state vserver_health run handle notify
    handle_config_update config_init configure_vips expand_checks expand_services_checks
    expand_services expand_family expand_entries find_vip new_service expand_dests new_dest
    handle_check_notification apply_status handle_dest_override override_dest for_dests on_dest
    update_found_dest dest_health all_checks_healthy vserver_enabled new_vserver take_down
    delete_service
program = tt

abbrev env : Env
env = record {
  is_anycast = λ ip. ip == 99;
  anycast_enabled = true;
  meets = λ up all watermark. ltb 0 up;
}

abbrev tcp_check : Healthcheck
tcp_check = record {
  name = 1;
  mode = plain;
  type = tcp;
  port = 80;
  interval = 10;
  timeout = 5;
  retries = 1;
  send = 0;
  receive = 0;
  code = 0;
  proxy = false;
  method = 0;
  secure = false;
  tls_verify = false;
}

abbrev entry_at : ℕ → VserverEntry
entry_at port = record {
  port = port;
  proto = 6;
  mode = dsr;
  scheduler = wrr;
  persistence = 0;
  one_packet = false;
  high_watermark = 0;
  low_watermark = 0;
  lower_threshold = 0;
  upper_threshold = 0;
  healthchecks = tcp_check ∷ [];
}

abbrev backend : Backend
backend = record {
  hostname = 7;
  ipv4_addr = some 1;
  ipv6_addr = some 2;
  enabled = true;
  in_service = true;
  weight = 1;
}

abbrev config : Config
config = record {
  name = 3;
  ipv4_addr = some 50;
  ipv6_addr = none;
  entries = (80, entry_at 80) ∷ [];
  backends = backend ∷ [];
  healthchecks = tcp_check ∷ [];
  vips = record { ip = 50; type = unicast_vip } ∷ [];
  enabled = true;
  use_fwm = false;
}

abbrev no_marks : MarkAllocator
no_marks = record { marks = [] }

abbrev result_of : Option Configured → Configured
result_of none = new_vserver no_marks
result_of (some c) = c

abbrev healthy_status : Defs.Status
healthy_status = record {
  last_check = 1;
  duration = 1;
  failures = 0;
  successes = 1;
  state = Defs.healthy;
  message = 0;
}

abbrev key_of : ℕ → ℕ → CheckKey
key_of port proto = record {
  vserver_ip = 50;
  backend_ip = 1;
  service_port = port;
  service_proto = proto;
  mode = plain;
  type = tcp;
  port = 80;
  name = 1;
}

-- Both checks of the only destination become healthy, which brings the vserver up.
abbrev events : List Event
events =
    check_notified (key_of 0 0) healthy_status
    ∷ check_notified (key_of 80 6) healthy_status
    ∷ dest_overridden 7 override_default
    ∷ []

abbrev after_events : Configured
after_events = result_of (run env (new_vserver no_marks) (config_updated config ∷ events))

came_up : is_active after_events.vserver 50 ≡ true
unfolding program new_check_key
came_up = refl

abbrev marked : Config
marked = record config { use_fwm = true; ipv6_addr = some 60 }

abbrev second_family : Service
second_family = new_service (record { af = ipv6; fwm = 256; proto = 0; port = 0 }) 60 (entry_at 80)

abbrev dest : Destination
dest = record {
  ip = 1;
  backend = backend;
  ipvs_dst =
      ipvs_destination (record { af = ipv4; fwm = 0; proto = 6; port = 80 }) (entry_at 80) 1 1;
  weight = 1;
  checks = [];
  healthy = false;
  active = false;
}

abbrev service_at : ℕ → ℕ → Service
service_at vip port = record {
  key = record { af = ipv4; fwm = 0; proto = 6; port = port };
  vip = vip;
  ventry = entry_at port;
  ipvs_svc =
      ipvs_service (record { af = ipv4; fwm = 0; proto = 6; port = port }) vip (entry_at port);
  dests = dest ∷ [];
  healthy = false;
  active = false;
}

abbrev vserver_with : Bool → List Service → List (ℕ × Bool) → Vserver
vserver_with enabled services active = record {
  enabled = enabled;
  services = services;
  checks = [];
  active = active;
  lb_vservers = [];
}

abbrev turned_off : Vserver
turned_off = vserver_with false (service_at 50 80 ∷ []) []

abbrev serving : Service
serving = record (service_at 50 80) {
  healthy = true;
  active = true;
  dests = record dest { healthy = true; active = true } ∷ [];
}

abbrev taken_away : Service
taken_away = record serving {
  healthy = false;
  active = false;
  dests = record dest { healthy = true; active = false } ∷ [];
}

-- An anycast address with a good and a bad service.
abbrev half_good : Vserver
half_good =
    vserver_with true (record (service_at 99 80) { healthy = true } ∷ service_at 99 443 ∷ []) []

half_good-IsSettled : IsSettled env half_good
half_good-IsSettled = record {
  addresses = λ ip. ground (arith, vserver_health-any env ip half_good.services);
  services = ((refl, (refl, tt)), ((refl, (refl, tt)), tt));
}
