-- ===== src/Engine/Sync/Sessions.antt =====
-- The sessions of a server after any requests: their ids, and how long they live.
use seesaw.Base.{
  ℕ, ◌+◌, ◌≤◌, ◌<◌, ◌≡◌, refl, ap, Bool, true, false, none, some, List, [], ◌∷◌, arith, length, ltb,
  ◌==◌, if◌then◌else◌, Bool-cases, Option-cases, inl, inr, lookup, lookup-insert, lookup-remove,
  lookup-map_values, ℕ_discrete, AreKeysDistinct, insert-AreKeysDistinct, remove-AreKeysDistinct,
  map_values-AreKeysDistinct,
}
use seesaw.Engine.Sync.Defs.{
  SyncNote, heartbeat, SyncSession, SyncServer, new_sync_server, fresh_session, add_note, register,
  deregister, notify, poll, poll_session, beat, tick, new_session,
}

-- What reaches a server: the RPCs of its peers, notifications of its engine, and heartbeats.
pub data Request : Type 0 where
  registered : (leads : Bool) (node now : ℕ) → Request
  deregistered : (id : ℕ) → Request
  notified : SyncNote → Request
  polled : (id now : ℕ) → Request
  ticked : (now : ℕ) → Request

unfoldable pub serve : SyncServer → Request → SyncServer
serve s (registered leads node now) = (register leads s node now).0
serve s (deregistered id) = deregister s id
serve s (notified note) = notify s note
serve s (polled id now) = (poll_session s id now).0
serve s (ticked now) = tick s now

unfoldable pub serve_all : SyncServer → List Request → SyncServer
unfolding serve
serve_all s [] = s
serve_all s (r ∷ rs) = serve_all (serve s r) rs

record IsValid (s : SyncServer) (served : ℕ) : Type 0 where
  distinct : AreKeysDistinct s.sessions
  given : (id : ℕ) (ss : SyncSession) → lookup id s.sessions ≡ some ss → id < s.next_session_id
  counted : s.next_session_id ≤ served

abbrev pub beating : ℕ → SyncNote
beating now = record { type = heartbeat; time = now; payload = 0 }

lookup-beat :
    (now id : ℕ) (m : List (ℕ × SyncSession))
    → AreKeysDistinct m
    → lookup id (beat now m) ≡ elim (lookup id m) [
      | none ↦ none
      | some ss ↦ if ltb ss.expiry_time now then none else some (add_note ss (beating now))
    ]
unfolding beat
lookup-beat now id [] h = refl
lookup-beat now id ((j, ss) ∷ m) h = elim (ℕ_discrete j id) [
  | yes e ↦ ground (arith, lookup-beat now id m h.1, h.0, ap (λ i. lookup i m) e)
  | no ne ↦ ground (arith, lookup-beat now id m h.1)
]

beat-AreKeysDistinct :
    (now : ℕ) (m : List (ℕ × SyncSession)) → AreKeysDistinct m → AreKeysDistinct (beat now m)
unfolding beat
beat-AreKeysDistinct now [] h = tt
beat-AreKeysDistinct now ((j, ss) ∷ m) h = elim (Bool-cases (ltb ss.expiry_time now)) [
  | inl old ↦ rw (old, beat) (beat-AreKeysDistinct now m h.1)
  | inr live ↦
      rw (live, beat) (rw (lookup-beat now j m h.1, h.0) refl, beat-AreKeysDistinct now m h.1)
]

module _ (s : SyncServer) (served : ℕ) (small : served + 1 < 18446744073709551616)
    (v : IsValid s served) where
  register-IsValid :
      (leads : Bool) (node now : ℕ) → IsValid (register leads s node now).0 (served + 1)
  unfolding register new_session
  register-IsValid false node now = record {
    distinct = v.distinct;
    given = v.given;
    counted = omega (arith, v.counted);
  }
  register-IsValid true node now =
      let ss = fresh_session s.next_session_id node now in
      record {
        distinct = insert-AreKeysDistinct s.next_session_id ss s.sessions v.distinct;
        given = λ id t e.
            ground
              (arith, v.given id t, v.counted, lookup-insert s.next_session_id id ss s.sessions);
        counted = omega (arith, v.counted);
      }

  deregister-IsValid : (id : ℕ) → IsValid (deregister s id) (served + 1)
  unfolding deregister
  deregister-IsValid id = record {
    distinct = remove-AreKeysDistinct id s.sessions v.distinct;
    given = λ j t e. ground (arith, v.given j t, lookup-remove id j s.sessions);
    counted = omega (arith, v.counted);
  }

  notify-IsValid : (note : SyncNote) → IsValid (notify s note) (served + 1)
  unfolding notify
  notify-IsValid note =
      let f = λ (id : ℕ) (ss : SyncSession). add_note ss note in
      record {
        distinct = map_values-AreKeysDistinct f s.sessions v.distinct;
        given = λ j t e. elim (Option-cases (lookup j s.sessions)) [
          | inl none_there ↦ absurd (ground (arith, lookup-map_values f j s.sessions))
          | inr (ss, there) ↦ v.given j ss there
        ];
        counted = omega (arith, v.counted);
      }

  poll_session-IsValid : (id now : ℕ) → IsValid (poll_session s id now).0 (served + 1)
  unfolding poll_session
  poll_session-IsValid id now = elim (Option-cases (lookup id s.sessions)) [
    | inl unknown ↦
        rw (unknown, poll_session)
          (record { distinct = v.distinct; given = v.given; counted = omega (arith, v.counted) })
    | inr (ss, known) ↦
        rw (known, poll_session)
          (record {
            distinct = insert-AreKeysDistinct id (poll ss now).0 s.sessions v.distinct;
            given = λ j t e. ground (
              arith,
              v.given j t,
              v.given id ss known,
              lookup-insert id j (poll ss now).0 s.sessions,
            );
            counted = omega (arith, v.counted);
          })
  ]

  tick-IsValid : (now : ℕ) → IsValid (tick s now) (served + 1)
  unfolding tick
  tick-IsValid now = record {
    distinct = beat-AreKeysDistinct now s.sessions v.distinct;
    given = λ j t e. elim (Option-cases (lookup j s.sessions)) [
      | inl none_there ↦ absurd (ground (arith, lookup-beat now j s.sessions v.distinct))
      | inr (ss, there) ↦ v.given j ss there
    ];
    counted = omega (arith, v.counted);
  }

  serve-IsValid : (r : Request) → IsValid (serve s r) (served + 1)
  unfolding serve
  serve-IsValid (registered leads node now) = register-IsValid leads node now
  serve-IsValid (deregistered id) = deregister-IsValid id
  serve-IsValid (notified note) = notify-IsValid note
  serve-IsValid (polled id now) = poll_session-IsValid id now
  serve-IsValid (ticked now) = tick-IsValid now

serve_all-IsValid :
    (s : SyncServer) (rs : List Request) (served : ℕ)
    → served + length rs < 18446744073709551616
    → IsValid s served
    → IsValid (serve_all s rs) (served + length rs)
unfolding serve_all
serve_all-IsValid s [] served small v = record {
  distinct = v.distinct;
  given = v.given;
  counted = omega (arith, v.counted);
}
serve_all-IsValid s (r ∷ rs) served small v =
    let later =
      serve_all-IsValid (serve s r) rs (served + 1) (omega arith)
        (serve-IsValid s served (omega arith) v r) in
    record {
      distinct = later.distinct;
      given = later.given;
      counted = omega (arith, later.counted);
    }

reached-IsValid :
    (rs : List Request)
    → length rs < 18446744073709551616
    → IsValid (serve_all new_sync_server rs) (length rs)
unfolding new_sync_server
reached-IsValid rs small =
    let v : IsValid new_sync_server 0 = record {
      distinct = tt;
      given = λ id ss e. cc;
      counted = omega arith;
    } in
    let r = serve_all-IsValid new_sync_server rs 0 (omega arith) v in
    record { distinct = r.distinct; given = r.given; counted = omega (arith, r.counted) }

-- After any requests, fewer than 2^64, a leader registers a peer under an id that no session has. The
-- new session starts desynchronised and expires after the dead time, and no other session changes.
pub register-serve_all :
    (rs : List Request) (node now : ℕ)
    → length rs < 18446744073709551616
    → let s = serve_all new_sync_server rs in
      (id : ℕ) × ((register true s node now).1 ≡ some id)
      × (lookup id s.sessions ≡ none)
      × ((j : ℕ)
          → lookup j (register true s node now).0.sessions
            ≡ (if id == j then some (fresh_session id node now) else lookup j s.sessions))
unfolding register new_session
register-serve_all rs node now small =
    let s = serve_all new_sync_server rs in
    let v = reached-IsValid rs small in
    let id = s.next_session_id in
    (
      id,
      refl,
      elim (Option-cases (lookup id s.sessions)) [
        | inl free ↦ free
        | inr (ss, taken) ↦ absurd (omega (arith, v.given id ss taken))
      ],
      λ j. lookup-insert id j (fresh_session id node now) s.sessions,
    )
