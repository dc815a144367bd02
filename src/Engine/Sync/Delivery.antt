-- ===== src/Engine/Sync/Delivery.antt =====
-- What a peer learns of the notes that are queued for it, when senders and polls interleave.
use seesaw.Base.{
  ℕ, zero, suc, ◌+◌, ◌-◌, ◌≤◌, ◌≡◌, refl, ap, false, none, some, List, [], ◌∷◌, ◌++◌, arith, length,
  length-append, append_assoc, ◌==◌, if◌then◌else◌, inl, inr, List-cases, Option-cases,
}
use seesaw.Engine.Sync.Defs.{
  SyncNote, SyncSession, fresh_session, session_notes_queue_size, try_send, mark_desync,
  poll_locked, poll_loop, poll_notes, sync_poll_msg_limit,
}

-- A session and its history since the peer was last told that it is desynchronised, or since the
-- session began: the notes that were offered to the session, and those that the peer received.
-- `pending`: the senders that found the queue full and have not marked the session yet.
pub record Log : Type 0 where
  pub session : SyncSession
  pub pending : ℕ
  pub offered : List SyncNote
  pub received : List SyncNote

abbrev pub start : ℕ → ℕ → ℕ → Log
start id node now = record {
  session = fresh_session id node now;
  pending = 0;
  offered = [];
  received = [];
}

-- The two parts of `addNote`, which other goroutines may come between, and those of `Poll`.
pub data Event : Type 0 where
  note_offered : SyncNote → Event
  marked : Event
  poll_began : (now : ℕ) → Event
  notes_polled : Event

abbrev pub offer : Log → SyncNote → Log
offer l note =
    let (ss, sent) = try_send l.session note in
    record l {
      session = ss;
      pending = if sent then l.pending else l.pending + 1;
      offered = l.offered ++ note ∷ [];
    }

abbrev pub mark : Log → Log
mark l =
    if l.pending == 0
    then l
    else record l { session = mark_desync l.session; pending = l.pending - 1 }

abbrev pub begin_poll : Log → ℕ → Log
begin_poll l now =
    let (ss, reply) = poll_locked l.session now in
    elim reply [
      | none ↦ record l { session = ss }
      | some told ↦ record l { session = ss; offered = []; received = [] }
    ]

abbrev pub finish_poll : Log → Log
finish_poll l =
    let (ss, reply) = poll_notes l.session in
    elim reply [
      | none ↦ record l { session = ss }
      | some notes ↦ record l { session = ss; received = l.received ++ notes }
    ]

unfoldable pub handle : Log → Event → Log
unfolding try_send mark_desync poll_locked poll_notes
handle l (note_offered note) = offer l note
handle l marked = mark l
handle l (poll_began now) = begin_poll l now
handle l notes_polled = finish_poll l

unfoldable pub replay : Log → List Event → Log
unfolding handle
replay l [] = l
replay l (e ∷ es) = replay (handle l e) es

record Inv (l : Log) : Type 0 where
  complete : l.session.desync ≡ false → l.pending ≡ 0 → l.received ++ l.session.notes ≡ l.offered
  bounded : length l.session.notes ≤ session_notes_queue_size

poll_loop-append :
    (limit : ℕ) (notes : List SyncNote)
    → (poll_loop limit notes).0 ++ (poll_loop limit notes).1 ≡ notes
unfolding poll_loop
poll_loop-append zero notes = refl
poll_loop-append (suc limit) [] = refl
poll_loop-append (suc limit) (note ∷ notes) =
    ap (λ (l : List SyncNote). note ∷ l) (poll_loop-append limit notes)

offer-Inv : (l : Log) (note : SyncNote) → Inv l → Inv (offer l note)
unfolding try_send
offer-Inv l note v = ground (
  arith,
  v.complete,
  v.bounded,
  append_assoc l.received l.session.notes (note ∷ []),
  length-append l.session.notes (note ∷ []),
)

mark-Inv : (l : Log) → Inv l → Inv (mark l)
unfolding mark_desync
mark-Inv l v = ground (arith, v.complete, v.bounded)

begin_poll-Inv : (l : Log) (now : ℕ) → Inv l → Inv (begin_poll l now)
unfolding poll_locked
begin_poll-Inv l now v = ground (arith, v.complete, v.bounded)

-- A poll takes the notes from the front of the queue, and changes nothing else.
poll_notes-some :
    (ss : SyncSession) (notes : List SyncNote)
    → (poll_notes ss).1 ≡ some notes
    → (notes ++ (poll_notes ss).0.notes ≡ ss.notes) × ((poll_notes ss).0.desync ≡ ss.desync)
unfolding poll_notes
poll_notes-some ss notes e = elim (List-cases ss.notes) [
  | inl empty ↦ absurd (ground arith)
  | inr (note, rest, some_notes) ↦ ground (arith, poll_loop-append sync_poll_msg_limit rest)
]

poll_notes-none : (ss : SyncSession) → (poll_notes ss).1 ≡ none → (poll_notes ss).0 ≡ ss
unfolding poll_notes
poll_notes-none ss e = ground arith

finish_poll-Inv : (l : Log) → Inv l → Inv (finish_poll l)
finish_poll-Inv l v = elim (Option-cases (poll_notes l.session).1) [
  | inl timeout ↦ ground (arith, v.complete, v.bounded, poll_notes-none l.session timeout)
  | inr (notes, reply) ↦
      let ss = (poll_notes l.session).0 in
      ground (
        arith,
        v.complete,
        v.bounded,
        poll_notes-some l.session notes reply,
        append_assoc l.received notes ss.notes,
        length-append notes ss.notes,
      )
]

handle-Inv : (l : Log) (e : Event) → Inv l → Inv (handle l e)
unfolding handle
handle-Inv l (note_offered note) v = offer-Inv l note v
handle-Inv l marked v = mark-Inv l v
handle-Inv l (poll_began now) v = begin_poll-Inv l now v
handle-Inv l notes_polled v = finish_poll-Inv l v

replay-Inv : (l : Log) (es : List Event) → Inv l → Inv (replay l es)
unfolding replay
replay-Inv l [] v = v
replay-Inv l (e ∷ es) v = replay-Inv (handle l e) es (handle-Inv l e v)

-- However its senders and the polls of its peer interleave, as long as a session is not marked as
-- desynchronised and no sender is about to mark it, the notes that the peer received since it was
-- last told of a desynchronisation, followed by those in the queue, are all the notes that were
-- offered since, in order and each once: a note is dropped only together with a desync notice.
pub replay-start_complete :
    (id node now : ℕ) (es : List Event)
    → (replay (start id node now) es).session.desync ≡ false
    → (replay (start id node now) es).pending ≡ 0
    → (replay (start id node now) es).received ++ (replay (start id node now) es).session.notes
      ≡ (replay (start id node now) es).offered
replay-start_complete id node now es = (replay-Inv (start id node now) es (ground arith)).complete

-- The queue of a session never holds more notes than its channel has room for.
pub replay-start_bounded :
    (id node now : ℕ) (es : List Event)
    → length (replay (start id node now) es).session.notes ≤ session_notes_queue_size
replay-start_bounded id node now es = (replay-Inv (start id node now) es (ground arith)).bounded
