-- ===== src/Engine/SyncClient/Deadlock.antt =====
-- engine/sync.go: when the client and the engine's manager wait for one another.
use seesaw.Base.{
  ◌≡◌, refl, Bool, true, false, not, ◌||◌, ◌⊎◌, inl, inr, none, some, List, [], ◌∷◌, arith,
  Bool-cases,
}
use seesaw.Engine.Core.Defs.{Override, vserver_override, destination_override, backend_override}
use seesaw.Engine.SyncClient.Loop.{
  Note, heartbeat, desync, config_update, healthcheck, unhandled, override, Client, at_top,
  awaiting_start, connecting, polling, cooling, dispatching, sending, leaving, Manager, at_select,
  at_start, at_quit, World, started, disable, handle_note, Step, enables, disables, is_stopped,
  starts, runs_once, cools_down, quits_cooling, fails, registers, leaves, polls, poll_fails, quits,
  polls_again, dispatches, hands_over, handed_over, Reach, here, next,
}

abbrev is_awaiting : Client → Bool
is_awaiting awaiting_start = true
is_awaiting (leaving true) = true
is_awaiting _ = false

abbrev is_at_top : Client → Bool
is_at_top at_top = true
is_at_top _ = false

abbrev is_idle : World → Bool
is_idle w = w.stopped || is_awaiting w.client

abbrev expected_idle : Manager → Bool → Bool
expected_idle at_select enabled = not enabled
expected_idle at_start enabled = true
expected_idle at_quit enabled = false

abbrev is_asked : Manager → Bool → Bool
is_asked at_select enabled = true
is_asked at_start enabled = enabled
is_asked at_quit enabled = not enabled

-- The client is idle exactly while it is not enabled, up to the send of the manager, and the item in
-- `stopped` is there only at the outer `select`.
record IsMatched (w : World) : Type 0 where
  idle : is_idle w ≡ expected_idle w.manager w.enabled
  asked : is_asked w.manager w.enabled ≡ true
  item : w.stopped ≡ true → is_at_top w.client ≡ true

Step-IsMatched : {w v : World} → Step w v → IsMatched w → IsMatched v
unfolding handle_note
Step-IsMatched (enables w m) i = ground arith
Step-IsMatched (disables w m) i = ground arith
Step-IsMatched (is_stopped w c s) i = ground arith
Step-IsMatched (starts w c m) i = ground arith
Step-IsMatched (runs_once w c s) i = ground arith
Step-IsMatched (cools_down w c) i = ground arith
Step-IsMatched (quits_cooling w c m s) i = ground arith
Step-IsMatched (fails w c) i = ground arith
Step-IsMatched (registers w c) i = ground arith
Step-IsMatched (leaves w quitted c s) i = ground arith
Step-IsMatched (polls w notes c) i = ground arith
Step-IsMatched (poll_fails w c) i = ground arith
Step-IsMatched (quits w c m) i = ground arith
Step-IsMatched (polls_again w c) i = ground arith
Step-IsMatched (dispatches w note notes c) i = ground arith
Step-IsMatched (hands_over w o rest notes c m) i = ground arith
Step-IsMatched (handed_over w notes c) i = ground arith

Reach-IsMatched : {w : World} → Reach w → IsMatched w
Reach-IsMatched here = ground arith
Reach-IsMatched (next r s) = Step-IsMatched s (Reach-IsMatched r)

-- The manager waits for the client to quit, and the client for the manager to take an override.
pub record IsDeadlocked (w : World) : Type 0 where
  pub waiting : w.manager ≡ at_quit
  pub first : Override
  pub overrides : List Override
  pub notes : List Note
  pub sends : w.client ≡ sending (first ∷ overrides) notes

Manager-cases : (m : Manager) → (m ≡ at_select) ⊎ ((m ≡ at_start) ⊎ (m ≡ at_quit))
Manager-cases at_select = inl refl
Manager-cases at_start = inr (inl refl)
Manager-cases at_quit = inr (inr refl)

pub data Steps : World → World → Type 0 where
  done : {w : World} → Steps w w
  first : {u w v : World} → Step u w → Steps w v → Steps u v

-- The manager is at its `select` again after some steps.
abbrev pub GoesOn : World → Type 0
GoesOn w = (v : World) × Steps w v × (v.manager ≡ at_select)

after : {u w : World} → Step u w → GoesOn w → GoesOn u
after s (v, steps, selects) = (v, first s steps, selects)

abbrev pub is_override : Note → Bool
is_override (override v d b) = true
is_override _ = false

abbrev pub has_override : List Note → Bool
has_override [] = false
has_override (note ∷ notes) = is_override note || has_override notes

-- The client has an override of the peer's to hand over.
abbrev pub holds_override : Client → Bool
holds_override (dispatching notes) = has_override notes
holds_override (sending [] notes) = has_override notes
holds_override (sending (o ∷ rest) notes) = true
holds_override _ = false

quits_polling : (w : World) → w.client ≡ polling → w.manager ≡ at_quit → GoesOn w
quits_polling w c m = (_, first (quits w c m) done, refl)

quits_connecting : (w : World) → w.client ≡ connecting → w.manager ≡ at_quit → GoesOn w
quits_connecting w c m = after (registers w c) (quits_polling _ refl m)

quits_dispatching :
    (w : World) (notes : List Note)
    → w.client ≡ dispatching notes
    → has_override notes ≡ false
    → w.manager ≡ at_quit
    → GoesOn w
unfolding handle_note
quits_dispatching w [] c h m = after (polls_again w c) (quits_polling _ refl m)
quits_dispatching w (heartbeat ∷ notes) c h m =
    after (dispatches w heartbeat notes c) (quits_dispatching _ notes refl h m)
quits_dispatching w (desync ∷ notes) c h m =
    after (dispatches w desync notes c) (quits_dispatching _ notes refl h m)
quits_dispatching w (config_update ∷ notes) c h m =
    after (dispatches w config_update notes c) (quits_dispatching _ notes refl h m)
quits_dispatching w (healthcheck ∷ notes) c h m =
    after (dispatches w healthcheck notes c) (quits_dispatching _ notes refl h m)
quits_dispatching w (unhandled ∷ notes) c h m =
    after (dispatches w unhandled notes c) (quits_dispatching _ notes refl h m)
quits_dispatching w (override v d b ∷ notes) c h m = absurd (ground (arith, h))

goes_on_at_quit :
    (w : World) (c : Client)
    → w.client ≡ c
    → w.manager ≡ at_quit
    → IsMatched w
    → holds_override c ≡ false
    → GoesOn w
goes_on_at_quit w at_top e m i h =
    after (runs_once w e (ground (arith, i.idle, m))) (quits_connecting _ refl m)
goes_on_at_quit w awaiting_start e m i h = absurd (ground (arith, i.idle))
goes_on_at_quit w connecting e m i h = quits_connecting w e m
goes_on_at_quit w polling e m i h = quits_polling w e m
goes_on_at_quit w cooling e m i h =
    (_, first (quits_cooling w e m (ground (arith, i.idle, m))) done, refl)
goes_on_at_quit w (dispatching notes) e m i h = quits_dispatching w notes e h m
goes_on_at_quit w (sending [] notes) e m i h =
    after (handed_over w notes e) (quits_dispatching _ notes refl h m)
goes_on_at_quit w (sending (o ∷ rest) notes) e m i h = absurd (ground (arith, h))
goes_on_at_quit w (leaving true) e m i h = absurd (ground (arith, i.idle))
goes_on_at_quit w (leaving false) e m i h =
    let empty : w.stopped ≡ false = ground (arith, i.idle, m) in
    after (leaves w false e empty) (_, first (quits_cooling _ refl m empty) done, refl)

starts_at_top : (w : World) → w.client ≡ at_top → w.stopped ≡ true → w.manager ≡ at_start → GoesOn w
starts_at_top w c s m = after (is_stopped w c s) (_, first (starts _ refl m) done, refl)

goes_on_at_start :
    (w : World) (c : Client) → w.client ≡ c → w.manager ≡ at_start → IsMatched w → GoesOn w
goes_on_at_start w at_top e m i = starts_at_top w e (ground (arith, i.idle, m)) m
goes_on_at_start w awaiting_start e m i = (_, first (starts w e m) done, refl)
goes_on_at_start w (leaving true) e m i = elim (Bool-cases w.stopped) [
  | inl stopped ↦ absurd (ground (arith, i.item))
  | inr empty ↦ after (leaves w true e empty) (starts_at_top _ refl refl m)
]
goes_on_at_start w (leaving false) e m i = absurd (ground (arith, i.idle, i.item))
goes_on_at_start w connecting e m i = absurd (ground (arith, i.idle, i.item))
goes_on_at_start w polling e m i = absurd (ground (arith, i.idle, i.item))
goes_on_at_start w cooling e m i = absurd (ground (arith, i.idle, i.item))
goes_on_at_start w (dispatching notes) e m i = absurd (ground (arith, i.idle, i.item))
goes_on_at_start w (sending os notes) e m i = absurd (ground (arith, i.idle, i.item))

-- Whatever the client was sent and the manager asked of it, the manager can come back to its `select`,
-- whether it waits for the client to start or to quit, unless the client has an override of the peer's
-- to hand over.
pub Reach-goes_on : (w : World) → Reach w → holds_override w.client ≡ false → GoesOn w
Reach-goes_on w r h = elim (Manager-cases w.manager) [
  | inl selects ↦ (w, done, selects)
  | inr (inl at_it) ↦ goes_on_at_start w w.client refl at_it (Reach-IsMatched r)
  | inr (inr waits) ↦ goes_on_at_quit w w.client refl waits (Reach-IsMatched r) h
]

IsDeadlocked-stuck : {w v : World} → IsDeadlocked w → Step w v → ⊥
IsDeadlocked-stuck d (enables w m) = absurd (ground (arith, d.waiting))
IsDeadlocked-stuck d (disables w m) = absurd (ground (arith, d.waiting))
IsDeadlocked-stuck d (is_stopped w c s) = absurd (ground (arith, d.sends))
IsDeadlocked-stuck d (starts w c m) = absurd (ground (arith, d.sends))
IsDeadlocked-stuck d (runs_once w c s) = absurd (ground (arith, d.sends))
IsDeadlocked-stuck d (cools_down w c) = absurd (ground (arith, d.sends))
IsDeadlocked-stuck d (quits_cooling w c m s) = absurd (ground (arith, d.sends))
IsDeadlocked-stuck d (fails w c) = absurd (ground (arith, d.sends))
IsDeadlocked-stuck d (registers w c) = absurd (ground (arith, d.sends))
IsDeadlocked-stuck d (leaves w quitted c s) = absurd (ground (arith, d.sends))
IsDeadlocked-stuck d (polls w notes c) = absurd (ground (arith, d.sends))
IsDeadlocked-stuck d (poll_fails w c) = absurd (ground (arith, d.sends))
IsDeadlocked-stuck d (quits w c m) = absurd (ground (arith, d.sends))
IsDeadlocked-stuck d (polls_again w c) = absurd (ground (arith, d.sends))
IsDeadlocked-stuck d (dispatches w note notes c) = absurd (ground (arith, d.sends))
IsDeadlocked-stuck d (hands_over w o rest notes c m) = absurd (ground (arith, d.waiting))
IsDeadlocked-stuck d (handed_over w notes c) = absurd (ground (arith, d.sends))

abbrev note_of : Override → Note
note_of (vserver_override o) = override (some o) none none
note_of (destination_override v d s) = override none (some (v, d, s)) none
note_of (backend_override h s) = override none none (some (h, s))

-- The client at its poll, and at the send of an override that it was told of.
abbrev polling_world : World
polling_world = record started { enabled = true; stopped = false; client = polling }

abbrev sending_world : Override → World
sending_world o = record polling_world { client = sending (o ∷ []) [] }

Reach-polling : Reach polling_world
Reach-polling =
    next
      (next
        (next (next (next here (enables started refl)) (is_stopped _ refl refl))
          (starts _ refl refl))
        (runs_once _ refl refl))
      (registers _ refl)

Reach-sending : (o : Override) → Reach (sending_world o)
unfolding handle_note
Reach-sending (vserver_override o) =
    next (next Reach-polling (polls _ (note_of (vserver_override o) ∷ []) refl))
      (dispatches _ (note_of (vserver_override o)) [] refl)
Reach-sending (destination_override v d s) =
    next (next Reach-polling (polls _ (note_of (destination_override v d s) ∷ []) refl))
      (dispatches _ (note_of (destination_override v d s)) [] refl)
Reach-sending (backend_override h s) =
    next (next Reach-polling (polls _ (note_of (backend_override h s) ∷ []) refl))
      (dispatches _ (note_of (backend_override h s)) [] refl)

-- On every override that the peer tells of, the client and the manager may come to wait for one another
-- for ever: the manager takes on the leader's role while the client hands the override over.
pub deadlock_reached :
    (o : Override) → (w : World) × Reach w × IsDeadlocked w × ((v : World) → Step w v → ⊥)
deadlock_reached o =
    let w = disable (sending_world o) in
    let d : IsDeadlocked w = record {
      waiting = refl;
      first = o;
      overrides = [];
      notes = [];
      sends = refl;
    } in
    (w, next (Reach-sending o) (disables (sending_world o) refl), d, λ v s. IsDeadlocked-stuck d s)
