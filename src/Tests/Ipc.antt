-- ===== src/Tests/Ipc.antt =====
-- engine/ipc.go: an operator who was granted one vserver.
use seesaw.Base.{false, none, some, [], ◌∷◌}
use seesaw.Engine.Healthchecks.Defs as Healthchecks
use seesaw.Engine.Vserver.Events.{override_disable}
use seesaw.Engine.Ipc.Context.{Context, AuthGroups, at_sso}
use seesaw.Engine.Ipc.Server.{Server}
use seesaw.Engine.Ipc.Calls.{Call, serve, override_vserver}
use seesaw.Engine.Ipc.Rights.{Refuses, may, serve-Refuses}
use seesaw.Tests.Config.{idle, bootstrapped}

abbrev auth : AuthGroups
auth = record { admin = 1; operator = 2; reader = 3 }

abbrev operator : Context
operator = record { auth_type = at_sso; user = record { groups = 3 ∷ 2 ∷ []; username = 7 } }

abbrev server : Server
server = record {
  manager = record idle { vserver_access = (30, (7, 1) ∷ []) ∷ [] };
  local_node = none;
  state_chan = none;
  status_chan = none;
  hc_manager = Healthchecks.new_manager 5;
  notes = [];
  overrides = [];
  notifier = bootstrapped;
  reload = false;
  cluster = none;
  neighbors = 0;
  vserver_snapshots = [];
}

abbrev call : Call
call = override_vserver (
    some (record {
      ctx = some operator;
      vserver = some (record { vserver_name = 31; state = override_disable });
      destination = none;
      backend = none;
    }))

serve-Refuses_example : Refuses server (may auth server call) (serve auth call server)
serve-Refuses_example = serve-Refuses auth call server
