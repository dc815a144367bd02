-- ===== src/Tests/Config.antt =====
-- engine/config/notifier.go: a server with twelve vservers, and a peer that knows none of them.
use seesaw.Base.{ℕ, suc, zero, ◌≤◌, ◌⊎◌, ◌≡◌, refl, true, false, none, some, [], ◌∷◌, arith}
use seesaw.Ha.Node.Defs.{backup}
use seesaw.Engine.HaManager.Defs.{new_ha_manager}
use seesaw.Engine.Sync.Defs.{new_sync_server}
use seesaw.Engine.Vserver.Data.{Env}
use seesaw.Engine.Core.Manager as Manager
use seesaw.Engine.Config.Limit.{Vservers, rate_limit_vs}
use seesaw.Engine.Config.Notifier.{
  Cluster, Protobuf, Notification, Answers, Notifier, source_peer, source_server, same_cluster,
  new_notifier, config_check, receive,
}
use seesaw.Engine.Config.Rounds.{absent, rate_limit_vs-few}
use seesaw.Engine.Config.Checks.{checks, checks_reach}
use seesaw.Engine.Config.Peers.{config_check-new_notifier, handle_notification-new_notifier}

program : Unit {0}
unfolding new_notifier config_check rate_limit_vs checks
program = tt

abbrev numbered : ℕ → Vservers
numbered zero = []
numbered (suc n) = (n, 7) ∷ numbered n

abbrev protobuf : Protobuf
protobuf = record { last_updated = some 50; body = 1 }

abbrev twelve : Cluster
twelve = record { rest = 1; status = 2; vservers = numbered 12 }

abbrev pub empty : Cluster
empty = record { rest = 1; status = 3; vservers = (20, 7) ∷ [] }

abbrev answers : Answers
answers = record { disk = none; peer = some (empty, true); server = some (twelve, protobuf) }

abbrev started : Notifier
started = record {
  max_peer_config_sync_errors = 3;
  source = source_server;
  last = record {
    cluster = empty;
    metadata_only = false;
    protobuf = some (record { last_updated = some 40; body = 0 });
    source = source_server;
  };
  peer_failures = 0;
  outgoing = none;
  saved = [];
}

-- The one vserver goes in the first round, ten come in the second and two in the third.
checks_reach_example :
    (n : Notifier) × (checks 3 answers started ≡ some n)
    × (same_cluster twelve n.last.cluster ≡ true)
checks_reach_example =
    checks_reach 1 1 answers twelve protobuf (record { last_updated = some 40; body = 0 }) started
      refl
      (
        refl,
        (refl, (refl, (refl, (refl, (refl, (refl, (refl, (refl, (refl, (refl, (refl, tt))))))))))),
      )
      refl refl refl refl (omega arith) (omega arith)

rate_limit_vs-few_example :
    (absent (rate_limit_vs (numbered 12) []) [] ≤ 10)
    × (absent [] (rate_limit_vs (numbered 12) []) ≤ 10)
    × ((absent (rate_limit_vs (numbered 12) []) [] ≡ 0)
        ⊎ (absent [] (rate_limit_vs (numbered 12) []) ≡ 0))
rate_limit_vs-few_example = rate_limit_vs-few (numbered 12) []

abbrev pub from_peer : Notification
from_peer = record { cluster = empty; metadata_only = true; protobuf = none; source = source_peer }

abbrev pub bootstrapped : Notifier
bootstrapped = record {
  max_peer_config_sync_errors = 3;
  source = source_server;
  last = from_peer;
  peer_failures = 0;
  outgoing = some from_peer;
  saved = record { protobuf = none; backup = true } ∷ [];
}

config_check-new_notifier_example : config_check answers (receive bootstrapped) ≡ none
unfolding program
config_check-new_notifier_example =
    config_check-new_notifier 3 answers answers bootstrapped empty true (twelve, protobuf) refl refl
      refl

abbrev env : Env
env = record { is_anycast = λ ip. false; anycast_enabled = false; meets = λ up all watermark. true }

abbrev settings : Manager.Settings
settings = record { node_ipv4 = some 7; node_ipv6 = none; cluster_vip = 9; use_vmac = false }

abbrev received : Manager.Notification
received = record {
  cluster = record { vservers = []; vlans = [] };
  access = record { vservers = []; access_groups = [] };
  nodes =
      record { ipv4_addr = some 7; ipv6_addr = none; state = backup; vservers_enabled = true } ∷ [];
  metadata_only = true;
}

abbrev pub idle : Manager.State
idle = record {
  engine = record {
    vservers = [];
    overrides = [];
    vlans = [];
    vlan_ops = [];
    fwm_alloc = record { marks = [] };
  };
  sync_server = new_sync_server;
  vserver_access = [];
  ha_manager = new_ha_manager true 100 0;
  arp_map = [];
  cluster = record { vservers = []; vlans = [] };
  starting = 0;
}

abbrev handled : Manager.State
handled = Manager.handle_notification (λ v ip. true) (λ ip. true) env settings idle received 5

handle_notification-new_notifier_example :
    (handled.engine ≡ idle.engine)
    × (handled.arp_map ≡ idle.arp_map)
    × (handled.starting ≡ idle.starting)
unfolding program
handle_notification-new_notifier_example =
    handle_notification-new_notifier (λ v ip. true) (λ ip. true) env settings 3 5 answers
      bootstrapped from_peer empty idle received refl refl refl refl
