-- ===== src/Engine/SyncClient/Loop.antt =====
-- engine/sync.go: `run`, `runOnce`, `poll` and `handleNote` of `syncClient`, as steps of its goroutine
-- and of that of the engine's `manager`, which calls `enable` and `disable` and takes the overrides. A
-- peer is configured; what its calls return, and when a timer ends, is open.
use seesaw.Base.{ℕ, Bool, true, false, ◌≡◌, Option, none, some, List, [], ◌∷◌, ◌++◌, if◌then◌else◌}
use seesaw.Engine.Core.Defs.{Override, vserver_override, destination_override, backend_override}
use seesaw.Engine.Vserver.Events.{OverrideState}
use seesaw.Engine.Vserver.Config.Data.{VserverOverride}

-- `SyncNote`, by its type; an override carries up to three of them.
pub data Note : Type 0 where
  heartbeat desync config_update healthcheck unhandled : Note
  override :
      Option VserverOverride → Option (ℕ × ℕ × OverrideState) → Option (ℕ × OverrideState) → Note

-- Where the client's goroutine is: at the outer `select`, at the receive from `start`, in `runOnce`
-- before the poll, at the `select` of `poll`, in the loop over the notes, in `queueOverride`, in
-- `runOnce` after the poll, and at the `select` after a failure.
pub data Client : Type 0 where
  at_top awaiting_start connecting polling cooling : Client
  dispatching : List Note → Client
  sending : List Override → List Note → Client
  leaving : (quitted : Bool) → Client

-- The manager, when it is not at its `select`, is at the send to `start` or to `quit`.
pub data Manager : Type 0 where
  at_select at_start at_quit : Manager

-- `stopped` is whether that channel holds its one item, and `reload` whether the notifier's does.
pub record World : Type 0 where
  pub enabled : Bool
  pub stopped : Bool
  pub client : Client
  pub manager : Manager
  pub reload : Bool
  pub taken : List Override

-- `newSyncClient`, and the start of `run`.
abbrev pub started : World
started = record {
  enabled = false;
  stopped = true;
  client = at_top;
  manager = at_select;
  reload = false;
  taken = [];
}

-- `enable` and `disable`, up to the send.
abbrev pub enable : World → World
enable w = record w { enabled = true; manager = if w.enabled then at_select else at_start }

abbrev pub disable : World → World
disable w = record w { enabled = false; manager = if w.enabled then at_quit else at_select }

abbrev pub vserver_part : Option VserverOverride → List Override
vserver_part none = []
vserver_part (some o) = vserver_override o ∷ []

abbrev pub destination_part : Option (ℕ × ℕ × OverrideState) → List Override
destination_part none = []
destination_part (some (vserver, destination, state)) =
    destination_override vserver destination state ∷ []

abbrev pub backend_part : Option (ℕ × OverrideState) → List Override
backend_part none = []
backend_part (some (hostname, state)) = backend_override hostname state ∷ []

-- `handleNote`, up to the first send of an override.
unfoldable pub handle_note : World → Note → List Note → World
handle_note w heartbeat notes = record w { client = dispatching notes }
handle_note w healthcheck notes = record w { client = dispatching notes }
handle_note w unhandled notes = record w { client = dispatching notes }
handle_note w desync notes = record w { client = dispatching notes; reload = true }
handle_note w config_update notes = record w { client = dispatching notes; reload = true }
handle_note w (override v d b) notes = record w {
  client = sending (vserver_part v ++ (destination_part d ++ backend_part b)) notes;
}

-- After `runOnce`: the item for `stopped`, or the pause.
abbrev pub leave : World → Bool → World
leave w true = record w { client = at_top; stopped = true }
leave w false = record w { client = cooling }

pub data Step : World → World → Type 0 where
  -- the manager
  enables : (w : World) → w.manager ≡ at_select → Step w (enable w)
  disables : (w : World) → w.manager ≡ at_select → Step w (disable w)
  -- the client's `run`
  is_stopped :
      (w : World)
      → w.client ≡ at_top
      → w.stopped ≡ true
      → Step w (record w { client = awaiting_start; stopped = false })
  starts :
      (w : World)
      → w.client ≡ awaiting_start
      → w.manager ≡ at_start
      → Step w (record w { client = at_top; manager = at_select })
  runs_once :
      (w : World)
      → w.client ≡ at_top
      → w.stopped ≡ false
      → Step w (record w { client = connecting })
  cools_down : (w : World) → w.client ≡ cooling → Step w (record w { client = at_top })
  quits_cooling :
      (w : World)
      → w.client ≡ cooling
      → w.manager ≡ at_quit
      → w.stopped ≡ false
      → Step w (record w { client = at_top; manager = at_select; stopped = true })
  -- `runOnce`
  fails : (w : World) → w.client ≡ connecting → Step w (record w { client = cooling })
  registers : (w : World) → w.client ≡ connecting → Step w (record w { client = polling })
  leaves :
      (w : World) (quitted : Bool)
      → w.client ≡ leaving quitted
      → w.stopped ≡ false
      → Step w (leave w quitted)
  -- `poll`
  polls :
      (w : World) (notes : List Note)
      → w.client ≡ polling
      → Step w (record w { client = dispatching notes })
  poll_fails : (w : World) → w.client ≡ polling → Step w (record w { client = leaving false })
  quits :
      (w : World)
      → w.client ≡ polling
      → w.manager ≡ at_quit
      → Step w (record w { client = leaving true; manager = at_select })
  polls_again : (w : World) → w.client ≡ dispatching [] → Step w (record w { client = polling })
  dispatches :
      (w : World) (note : Note) (notes : List Note)
      → w.client ≡ dispatching (note ∷ notes)
      → Step w (handle_note w note notes)
  -- `queueOverride`, whose channel has no buffer
  hands_over :
      (w : World) (o : Override) (rest : List Override) (notes : List Note)
      → w.client ≡ sending (o ∷ rest) notes
      → w.manager ≡ at_select
      → Step w (record w { client = sending rest notes; taken = w.taken ++ o ∷ [] })
  handed_over :
      (w : World) (notes : List Note)
      → w.client ≡ sending [] notes
      → Step w (record w { client = dispatching notes })

pub data Reach : World → Type 0 where
  here : Reach started
  next : {w v : World} → Reach w → Step w v → Reach v
