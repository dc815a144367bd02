-- ===== src/Ha/Node/Defs.antt =====
-- ha/core.go: the state of a node and its operations.
use seesaw.Base.{
  ℕ, ◌+◌, ◌-◌, ◌*◌, ◌/◌, Bool, true, false, not, ◌&&◌, Option, none, some, List, [], ◌∷◌, ◌++◌,
  length, ltb, leb, ◌==◌, if◌then◌else◌, u16, u64,
}

pub data HaState : Type 0 where
  unknown backup disabled error leader shutdown : HaState

pub HaState-discrete : Discrete HaState
HaState-discrete = hlevel

abbrev pub is_leader : HaState → Bool
is_leader leader = true
is_leader _ = false

abbrev pub same_state : HaState → HaState → Bool
same_state unknown unknown = true
same_state backup backup = true
same_state disabled disabled = true
same_state error error = true
same_state leader leader = true
same_state shutdown shutdown = true
same_state _ _ = false

pub record Advertisement : Type 0 where
  pub version_type : ℕ
  pub vrid : ℕ
  pub priority : ℕ
  pub count_ip_addrs : ℕ
  pub advert_int : ℕ
  pub checksum : ℕ

-- `vrrpVersion<<4 | vrrpAdvertType`
abbrev pub vrrp_version_type : ℕ
vrrp_version_type = 3 * 16 + 1

-- An address is its bytes; `none` is nil.
pub record NodeConfig : Type 0 where
  pub local_addr : Option (List ℕ)
  pub remote_addr : Option (List ℕ)
  pub priority : ℕ
  pub vrid : ℕ
  pub master_advert_interval : ℕ
  pub preempt : Bool

pub record HaStatus : Type 0 where
  pub state : HaState
  pub since : ℕ
  pub sent : ℕ
  pub received : ℕ
  pub received_queued : ℕ
  pub transitions : ℕ

pub record Node : Type 0 where
  pub config : NodeConfig
  pub ha_status : HaStatus
  pub send_count : ℕ
  pub receive_count : ℕ
  pub master_down_interval : ℕ
  pub last_master_advert_time : Option ℕ
  pub recv_channel : List Advertisement
  pub sender : Bool
  pub sent : List Advertisement
  pub told : List HaState

abbrev pub recv_channel_size : ℕ
recv_channel_size = 20

-- `skewTime` and `masterDownInterval` of RFC 5798.
unfoldable pub down_interval : ℕ → ℕ → ℕ
down_interval priority advert_interval =
    3 * advert_interval + (256 - priority) * advert_interval / 256

unfoldable pub reset_master_down_interval : Node → ℕ → Node
reset_master_down_interval n advert_interval = record n {
  master_down_interval = down_interval n.config.priority advert_interval;
}

unfoldable pub set_state : Node → HaState → ℕ → Node
set_state n s now = if same_state n.ha_status.state s then n else record n {
  ha_status = record (n.ha_status) {
    state = s;
    since = now;
    transitions = u64 (n.ha_status.transitions + 1);
  };
}

unfoldable pub new_node : NodeConfig → ℕ → Node
unfolding set_state reset_master_down_interval
new_node cfg now =
    reset_master_down_interval (set_state blank backup now) cfg.master_advert_interval
  where
    blank : Node
    blank = record {
      config = cfg;
      ha_status = record {
        state = unknown;
        since = 0;
        sent = 0;
        received = 0;
        received_queued = 0;
        transitions = 0;
      };
      send_count = 0;
      receive_count = 0;
      master_down_interval = 0;
      last_master_advert_time = none;
      recv_channel = [];
      sender = false;
      sent = [];
      told = [];
    }

-- `status`: the counters are copied into the stored status, and a copy is returned.
unfoldable pub status : Node → Node × HaStatus
status n =
    let s : HaStatus = record (n.ha_status) {
      sent = n.send_count;
      received = n.receive_count;
      received_queued = length n.recv_channel;
    } in
    (record n { ha_status = s }, s)

-- `AdvertInt` is in centiseconds.
unfoldable pub new_advertisement : Node → Advertisement
new_advertisement n = record {
  version_type = vrrp_version_type;
  vrid = n.config.vrid;
  priority = n.config.priority;
  count_ip_addrs = 0;
  advert_int = u16 (n.config.master_advert_interval / 1000000 / 10);
  checksum = 0;
}

-- `n.engine.HAState(s)`; its error is only logged.
unfoldable pub tell : Node → HaState → Node
tell n s = record n { told = s ∷ n.told }

unfoldable pub become_master : Node → ℕ → Node
unfolding tell set_state
become_master n now = set_state (record (tell n leader) { sender = true }) leader now

-- What `sendAdvertisements` does with a value from `stopSenderChannel`.
unfoldable pub stop_sender : Node → HaState → Node
unfolding new_advertisement
stop_sender n new_state =
    if same_state new_state shutdown
    then record n { sender = false; sent = record (new_advertisement n) { priority = 0 } ∷ n.sent }
    else record n { sender = false }

unfoldable pub become_backup : Node → ℕ → Node
unfolding tell stop_sender set_state
become_backup n now = set_state (stop_sender (tell n backup) backup) backup now

unfoldable pub become_shutdown : Node → ℕ → Node
unfolding tell stop_sender set_state
become_shutdown n now =
    let t = tell n shutdown in
    set_state (if is_leader t.ha_status.state then stop_sender t shutdown else t) shutdown now

-- `bytes.Compare(a, b) > 0`
unfoldable pub bytes_gt : List ℕ → List ℕ → Bool
bytes_gt [] b = false
bytes_gt (x ∷ a) [] = true
bytes_gt (x ∷ a) (y ∷ b) = let rest = bytes_gt a b in if x == y then rest else ltb y x

-- Both addresses are set, and the remote one is the higher.
unfoldable pub remote_is_higher : Option (List ℕ) → Option (List ℕ) → Bool
unfolding bytes_gt
remote_is_higher (some remote) (some local) = bytes_gt remote local
remote_is_higher _ _ = false

-- The `recvChannel` branch of `doMasterTasks`.
unfoldable pub master_handle_advertisement : Node → Advertisement → ℕ → Node × HaState
unfolding remote_is_higher
master_handle_advertisement n advert now =
    if advert.priority == n.config.priority
    then if remote_is_higher n.config.remote_addr n.config.local_addr
      then (record n { last_master_advert_time = some now }, backup)
      else (n, leader)
    else if ltb n.config.priority advert.priority
    then (record n { last_master_advert_time = some now }, backup)
    else (n, leader)

-- `10*advert.AdvertInt` is a product of `uint16`.
unfoldable pub backup_handle_advertisement : Node → Advertisement → ℕ → Node × HaState
unfolding reset_master_down_interval
backup_handle_advertisement n advert now =
    if advert.priority == 0
    then (n, leader)
    else if n.config.preempt && ltb advert.priority n.config.priority
    then (n, leader)
    else (
      record (reset_master_down_interval n (1000000 * u16 (10 * advert.advert_int))) {
        last_master_advert_time = some now;
      },
      backup,
    )

-- The channel that a `select` took.
pub data Wake : Type 0 where
  advert_queued shutdown_asked error_raised timed_out : Wake

-- `none`: the branch is not ready, so the `select` cannot take it.
unfoldable pub do_master_tasks : Node → ℕ → Wake → Option (Node × HaState)
unfolding master_handle_advertisement
do_master_tasks n now advert_queued = elim (n.recv_channel) [
  | [] ↦ none
  | a ∷ rest ↦ some (master_handle_advertisement (record n { recv_channel = rest }) a now)
]
do_master_tasks n now shutdown_asked = some (n, shutdown)
do_master_tasks n now error_raised = some (n, error)
do_master_tasks n now timed_out = none

-- The time left until the master counts as down; `-` stops at 0, as the source's `if` does.
unfoldable pub remaining : Node → ℕ → ℕ
remaining n now = elim (n.last_master_advert_time) [
  | none ↦ n.master_down_interval
  | some last ↦ n.master_down_interval - (now - last)
]

-- `start` is the time at which the tasks begin, `now` the time at which the `select` wakes.
unfoldable pub do_backup_tasks : Node → ℕ → ℕ → Wake → Option (Node × HaState)
unfolding backup_handle_advertisement remaining
do_backup_tasks n start now advert_queued = elim (n.recv_channel) [
  | [] ↦ none
  | a ∷ rest ↦ some (backup_handle_advertisement (record n { recv_channel = rest }) a now)
]
do_backup_tasks n start now shutdown_asked = some (n, shutdown)
do_backup_tasks n start now error_raised = some (n, error)
do_backup_tasks n start now timed_out =
    if leb (start + remaining n start) now
    then some (elim (n.recv_channel) [
      | [] ↦ (n, leader)
      | a ∷ rest ↦ backup_handle_advertisement (record n { recv_channel = rest }) a now
    ])
    else none

-- `failed`: `runOnce` returns an error, and `Run` with it.
pub data Outcome : Type 0 where
  blocked : Outcome
  failed : Node → Outcome
  running : Node → Outcome

unfoldable pub after_backup_tasks : ℕ → Option (Node × HaState) → Outcome
unfolding become_master become_shutdown
after_backup_tasks now none = blocked
after_backup_tasks now (some (n, backup)) = running n
after_backup_tasks now (some (n, leader)) = running (become_master n now)
after_backup_tasks now (some (n, shutdown)) = running (become_shutdown n now)
after_backup_tasks now (some (n, _)) = failed n

unfoldable pub after_master_tasks : ℕ → Option (Node × HaState) → Outcome
unfolding become_backup become_shutdown
after_master_tasks now none = blocked
after_master_tasks now (some (n, leader)) = running n
after_master_tasks now (some (n, backup)) = running (become_backup n now)
after_master_tasks now (some (n, shutdown)) = running (become_shutdown n now)
after_master_tasks now (some (n, _)) = failed n

unfoldable pub run_state : HaState → Node → ℕ → ℕ → Wake → Outcome
unfolding do_backup_tasks do_master_tasks after_backup_tasks after_master_tasks
run_state backup n start now w = after_backup_tasks now (do_backup_tasks n start now w)
run_state leader n start now w = after_master_tasks now (do_master_tasks n now w)
run_state _ n start now w = failed n

unfoldable pub run_once : Node → ℕ → ℕ → Wake → Outcome
unfolding run_state
run_once n start now w = run_state n.ha_status.state n start now w

-- One tick of `sendAdvertisements`; the flag says whether an error goes to `errChannel`.
unfoldable pub sender_tick : Node → Bool → Node × Bool
unfolding new_advertisement
sender_tick n sends =
    if sends
    then (
      record n { sent = new_advertisement n ∷ n.sent; send_count = u64 (n.send_count + 1) },
      false,
    )
    else (n, true)

unfoldable pub queue_advertisement : Node → Advertisement → Node × Bool
queue_advertisement n advert =
    if ltb (length n.recv_channel) recv_channel_size
    then (record n { recv_channel = n.recv_channel ++ advert ∷ [] }, false)
    else (n, true)

-- One advertisement that the connection returned, in `receiveAdvertisements`.
unfoldable pub receive_advertisement : Node → Advertisement → Node × Bool
unfolding queue_advertisement
receive_advertisement n advert =
    if not (advert.version_type == vrrp_version_type && advert.vrid == n.config.vrid)
    then (n, false)
    else queue_advertisement (record n { receive_count = u64 (n.receive_count + 1) }) advert
