-- ===== src/Engine/HaManager/Defs.antt =====
-- engine/ha.go, and what engine/core.go and engine/sync.go do when the HA state changes.
use seesaw.Base.{ℕ, ◌-◌, Bool, true, false, not, ◌&&◌, ◌||◌, List, [], ◌∷◌, leb, if◌then◌else◌}
use seesaw.Ha.Node.Defs.{HaState, unknown, backup, disabled, leader, same_state}

-- `seesaw.HAStatus`; `received_queued` is not among the fields that the manager reads.
pub record Status : Type 0 where
  pub last_update : ℕ
  pub since : ℕ
  pub state : HaState
  pub sent : ℕ
  pub received : ℕ
  pub transitions : ℕ

-- `syncClient`: whether a peer is configured, and its `enabled`. The starts and the quits that were
-- sent to its `run`, the latest first.
pub data Signal : Type 0 where
  start quit : Signal

pub record SyncClient : Type 0 where
  pub peer_configured : Bool
  pub enabled : Bool
  pub signals : List Signal

-- `lb_up`: the LB interface is up.
pub record HaManager : Type 0 where
  pub failover_pending : Bool
  pub status : Status
  pub timeout : ℕ
  pub sync_client : SyncClient
  pub lb_up : Bool

unfoldable pub new_ha_manager : Bool → ℕ → ℕ → HaManager
new_ha_manager peer timeout now = record {
  failover_pending = false;
  status = record {
    last_update = now;
    since = now;
    state = unknown;
    sent = 0;
    received = 0;
    transitions = 0;
  };
  timeout = timeout;
  sync_client = record { peer_configured = peer; enabled = false; signals = [] };
  lb_up = false;
}

-- `syncClient.enable`
unfoldable pub enable_sync : SyncClient → SyncClient
enable_sync sc = if not sc.peer_configured then sc else record sc {
  enabled = true;
  signals = if sc.enabled then sc.signals else start ∷ sc.signals;
}

-- `syncClient.disable`
unfoldable pub disable_sync : SyncClient → SyncClient
disable_sync sc = if not sc.peer_configured then sc else record sc {
  enabled = false;
  signals = if sc.enabled then quit ∷ sc.signals else sc.signals;
}

unfoldable pub become_master : HaManager → HaManager
unfolding disable_sync
become_master h = record h { sync_client = disable_sync h.sync_client; lb_up = true }

unfoldable pub become_backup : HaManager → HaManager
unfolding enable_sync
become_backup h = record h { sync_client = enable_sync h.sync_client; lb_up = false }

-- The role change in `setState`.
unfoldable pub change_role : HaManager → HaState → HaManager
unfolding become_master become_backup
change_role h s =
    if same_state h.status.state s
    then h
    else if same_state s leader
    then become_master h
    else if same_state h.status.state leader || same_state s backup
    then become_backup h
    else h

-- `setState`
unfoldable pub set_state : HaManager → HaState → ℕ → HaManager
unfolding change_role
set_state h s now =
    if same_state h.status.state disabled && not (same_state s unknown)
    then h
    else (let h' = change_role h s in
        record h' { status = record (h'.status) { state = s; since = now; last_update = now } })

-- `setStatus`
unfoldable pub set_status : HaManager → Status → ℕ → HaManager
unfolding set_state
set_status h st now =
    let h' = set_state h st.state now in
    record h' {
      status = record (h'.status) {
        since = st.since;
        sent = st.sent;
        received = st.received;
        transitions = st.transitions;
      };
    }

-- `enable`
unfoldable pub enable : HaManager → ℕ → HaManager
unfolding set_state
enable h now = if same_state h.status.state disabled then set_state h unknown now else h

-- `disable`
unfoldable pub disable : HaManager → ℕ → HaManager
unfolding set_state
disable h now = set_state h disabled now

-- `failover`
unfoldable pub failover : HaManager → HaManager × Bool
failover h = (record h { failover_pending = false }, h.failover_pending)

-- `already_pending` and `not_master` are errors; `peer_asked` is the call of `syncClient.failover`.
pub data FailoverReply : Type 0 where
  accepted already_pending not_master peer_asked : FailoverReply

-- `requestFailover`
unfoldable pub request_failover : HaManager → Bool → HaManager × FailoverReply
request_failover h peer =
    if same_state h.status.state leader
    then if h.failover_pending
      then (h, already_pending)
      else (record h { failover_pending = true }, accepted)
    else if peer
    then (h, not_master)
    else (h, peer_asked)

-- Whether the channel of `timer` delivers at `now`.
unfoldable pub timer_fires : HaManager → ℕ → Bool
timer_fires h now =
    not (same_state h.status.state disabled || same_state h.status.state unknown)
    && leb h.timeout (now - h.status.last_update)

-- What the engine's `manager`, its configuration and its IPC give to the HA manager.
pub data Event : Type 0 where
  state_received : HaState → (now : ℕ) → Event
  status_received : Status → (now : ℕ) → Event
  ha_enabled ha_disabled timer_polled : (now : ℕ) → Event
  failover_asked : (peer : Bool) → Event
  failover_polled : Event

unfoldable pub handle : HaManager → Event → HaManager
unfolding set_state set_status enable disable timer_fires request_failover failover
handle h (state_received s now) = set_state h s now
handle h (status_received st now) = set_status h st now
handle h (ha_enabled now) = enable h now
handle h (ha_disabled now) = disable h now
handle h (timer_polled now) = if timer_fires h now then set_state h unknown now else h
handle h (failover_asked peer) = (request_failover h peer).0
handle h failover_polled = (failover h).0

unfoldable pub run : HaManager → List Event → HaManager
unfolding handle
run h [] = h
run h (e ∷ es) = run (handle h e) es
