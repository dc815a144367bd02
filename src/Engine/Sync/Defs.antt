-- ===== src/Engine/Sync/Defs.antt =====
-- engine/sync.go: `syncSession`, `syncServer` and the RPCs of `SeesawSync`.
use seesaw.Base.{
  ℕ, zero, suc, ◌+◌, Bool, true, false, Option, none, some, List, [], ◌∷◌, ◌++◌, length, ltb,
  if◌then◌else◌, lookup, insert, remove, map_values, u64,
}

pub data SyncNoteType : Type 0 where
  heartbeat desync config_update healthcheck override : SyncNoteType

-- `payload`: the number of what the note carries besides its type and its time.
pub record SyncNote : Type 0 where
  pub type : SyncNoteType
  pub time : ℕ
  pub payload : ℕ

abbrev pub session_notes_queue_size : ℕ
session_notes_queue_size = 100

abbrev pub sync_poll_msg_limit : ℕ
sync_poll_msg_limit = 100

-- Nanoseconds.
abbrev pub session_deadtime : ℕ
session_deadtime = 120000000000

-- `notes`: what the channel holds.
pub record SyncSession : Type 0 where
  pub id : ℕ
  pub node : ℕ
  pub desync : Bool
  pub start_time : ℕ
  pub expiry_time : ℕ
  pub notes : List SyncNote

-- The `select` of `addNote`: whether the channel took the note.
unfoldable pub try_send : SyncSession → SyncNote → SyncSession × Bool
try_send ss note =
    if ltb (length ss.notes) session_notes_queue_size
    then (record ss { notes = ss.notes ++ note ∷ [] }, true)
    else (ss, false)

-- The locked part of `addNote`, for a note that the channel did not take.
unfoldable pub mark_desync : SyncSession → SyncSession
mark_desync ss = record ss { desync = true }

-- `addNote`
unfoldable pub add_note : SyncSession → SyncNote → SyncSession
unfolding try_send mark_desync
add_note ss note = let (ss', sent) = try_send ss note in if sent then ss' else mark_desync ss'

-- The locked part of `Poll`: the session, and the reply if it was desynchronised.
unfoldable pub poll_locked : SyncSession → ℕ → SyncSession × Option (List SyncNote)
poll_locked ss now =
    let alive : SyncSession = record ss { expiry_time = now + session_deadtime } in
    if ss.desync
    then (
      record alive { notes = []; desync = false },
      some (record { type = desync; time = now; payload = 0 } ∷ []),
    )
    else (alive, none)

-- `pollLoop`: at most so many notes, and what the channel then holds.
unfoldable pub poll_loop : ℕ → List SyncNote → List SyncNote × List SyncNote
poll_loop zero notes = ([], notes)
poll_loop (suc limit) [] = ([], [])
poll_loop (suc limit) (note ∷ notes) =
    let (taken, rest) = poll_loop limit notes in (note ∷ taken, rest)

-- The rest of `Poll`; `none` is its timeout, which an empty channel leads to.
unfoldable pub poll_notes : SyncSession → SyncSession × Option (List SyncNote)
unfolding poll_loop
poll_notes ss = elim (ss.notes) [
  | [] ↦ (ss, none)
  | note ∷ notes ↦
      let (taken, rest) = poll_loop sync_poll_msg_limit notes in
      (record ss { notes = rest }, some (note ∷ taken))
]

-- `Poll` of one session.
unfoldable pub poll : SyncSession → ℕ → SyncSession × Option (List SyncNote)
unfolding poll_locked poll_notes
poll ss now =
    let (ss', reply) = poll_locked ss now in
    elim reply [ some notes ↦ (ss', some notes) | none ↦ poll_notes ss' ]

pub record SyncServer : Type 0 where
  pub next_session_id : ℕ
  pub sessions : List (ℕ × SyncSession)

unfoldable pub new_sync_server : SyncServer
new_sync_server = record { next_session_id = 0; sessions = [] }

abbrev pub fresh_session : ℕ → ℕ → ℕ → SyncSession
fresh_session id node now = record {
  id = id;
  node = node;
  desync = true;
  start_time = now;
  expiry_time = now + session_deadtime;
  notes = [];
}

-- `newSession`
unfoldable pub new_session : SyncServer → ℕ → ℕ → SyncServer × SyncSession
new_session s node now =
    let session = fresh_session s.next_session_id node now in
    (
      record {
        next_session_id = u64 (s.next_session_id + 1);
        sessions = insert session.id session s.sessions;
      },
      session,
    )

-- `Register`, with whether the node is the leader; `none` is its error.
unfoldable pub register : Bool → SyncServer → ℕ → ℕ → SyncServer × Option ℕ
unfolding new_session
register leads s node now =
    if leads
    then (let (s', session) = new_session s node now in (s', some session.id))
    else (s, none)

-- `Deregister`
unfoldable pub deregister : SyncServer → ℕ → SyncServer
deregister s id = record s { sessions = remove id s.sessions }

-- `notify`
unfoldable pub notify : SyncServer → SyncNote → SyncServer
notify s note = record s {
  sessions = map_values (λ (id : ℕ) (ss : SyncSession). add_note ss note) s.sessions;
}

-- `Poll`; `none` is one of its errors.
unfoldable pub poll_session : SyncServer → ℕ → ℕ → SyncServer × Option (List SyncNote)
poll_session s id now = elim (lookup id s.sessions) [
  | none ↦ (s, none)
  | some ss ↦
      let (ss', reply) = poll ss now in (record s { sessions = insert id ss' s.sessions }, reply)
]

-- The loop of `run` over the sessions, at one tick of the heartbeat.
unfoldable pub beat : ℕ → List (ℕ × SyncSession) → List (ℕ × SyncSession)
beat now [] = []
beat now ((id, ss) ∷ rest) =
    let others = beat now rest in
    if ltb ss.expiry_time now
    then others
    else (id, add_note ss (record { type = heartbeat; time = now; payload = 0 })) ∷ others

unfoldable pub tick : SyncServer → ℕ → SyncServer
unfolding beat
tick s now = record s { sessions = beat now s.sessions }
