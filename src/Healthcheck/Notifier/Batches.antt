-- ===== src/Healthcheck/Notifier/Batches.antt =====
-- What becomes of the notifications that are queued.
use seesaw.Base.{
  ℕ, zero, suc, ◌+◌, ◌≤◌, ◌<◌, ◌≡◌, Bool, true, false, none, some, List, [], ◌∷◌, ◌++◌, length,
  length-append, arith, ◌∙◌, ◌==◌, if◌then◌else◌, Bool-cases, inl, inr, Option-cases, append-nil,
  append_assoc,
}
use seesaw.Healthcheck.Notifier.Defs.{
  ServerConfig, Server, new_server, send_loop, send, Event, notified, timer_fired, timer_off, step,
  run,
}

-- The number of attempts that `send` makes at most.
abbrev pub attempts : ℕ → ℕ
attempts zero = 1
attempts (suc n) = suc n

attempts-le : (max : ℕ) → attempts max ≤ max + 1
attempts-le zero = omega arith
attempts-le (suc n) = omega arith

attempts-pos : (max : ℕ) → 0 < attempts max
attempts-pos zero = omega arith
attempts-pos (suc n) = omega arith

-- Whether one of the attempts from `i` on, `n` of them, is answered.
abbrev pub answered : ℕ → ℕ → (ℕ → Bool) → Bool
answered zero i answers = false
answered (suc n) i answers = if answers i then true else answered n (i + 1) answers

send_loop-answered :
    (n fuel max i : ℕ) (answers : ℕ → Bool)
    → n ≤ fuel
    → i + n ≡ attempts max
    → 0 < n
    → send_loop fuel max i answers ≡ some (answered n i answers)
unfolding send_loop
send_loop-answered zero fuel max i answers f e p = absurd (omega arith)
send_loop-answered (suc n) zero max i answers f e p = absurd (omega arith)
send_loop-answered (suc zero) (suc fuel) zero i answers f e p = ground arith
send_loop-answered (suc zero) (suc fuel) (suc max) i answers f e p = ground arith
send_loop-answered (suc (suc n)) (suc fuel) zero i answers f e p = absurd (omega arith)
send_loop-answered (suc (suc n)) (suc fuel) (suc max) i answers f e p =
    ground (arith, send_loop-answered (suc n) fuel (suc max) (i + 1) answers)

module _ {A : Type 0} where
  -- `send` always ends. It makes at most `MaxFailures` attempts, one if that is 0; it empties the
  -- batch if one of these is answered, and gives up otherwise.
  pub send-answered :
      (s : Server A) (answers : ℕ → Bool)
      → send s answers ≡ (
          if answered (attempts s.config.max_failures) 0 answers
          then some (record s { delivered = s.delivered ++ s.batch; batch = [] })
          else none)
  unfolding send
  send-answered s answers =
      let max = s.config.max_failures in
      let ends =
        send_loop-answered (attempts max) (max + 1) max 0 answers (attempts-le max) (omega arith)
          (attempts-pos max) in
      elim (Bool-cases (answered (attempts max) 0 answers)) [
        | inl taken ↦ rw (ends, send) (rw taken)
        | inr refused ↦ rw (ends, send) (rw refused)
      ]

  abbrev pub queued : List (Event A) → List A
  queued [] = []
  queued (notified n answers ∷ es) = n ∷ queued es
  queued (timer_fired answers ∷ es) = queued es

  pub record Inv (s : Server A) : Type 0 where
    pub armed : 0 < length s.batch → s.timer ≡ true
    pub bounded : 2 ≤ s.config.batch_size → length s.batch < s.config.batch_size

  sent : Server A → Server A
  sent s = record s { delivered = s.delivered ++ s.batch; batch = []; timer = false }

  timer_off-send :
      (s t : Server A) (answers : ℕ → Bool) → timer_off (send s answers) ≡ some t → t ≡ sent s
  unfolding sent
  timer_off-send s t answers e = ground (arith, send-answered s answers)

  -- Nothing is lost, added or reordered by a round.
  step-conserves :
      (s t : Server A) (e : Event A) (es : List (Event A))
      → step s e ≡ some t
      → t.delivered ++ (t.batch ++ queued es) ≡ s.delivered ++ (s.batch ++ queued (e ∷ es))
  unfolding step sent
  step-conserves s t (notified n answers) es e =
      let grown : Server A = record s { batch = s.batch ++ n ∷ [] } in
      ground (
        arith,
        timer_off-send grown t answers,
        append_assoc s.batch (n ∷ []) (queued es),
        append_assoc s.delivered (s.batch ++ n ∷ []) (queued es),
      )
  step-conserves s t (timer_fired answers) es e =
      ground (arith, timer_off-send s t answers, append_assoc s.delivered s.batch (queued es))

  step-Inv : (s t : Server A) (e : Event A) → Inv s → step s e ≡ some t → Inv t
  unfolding step sent
  step-Inv s t (notified n answers) v e =
      let grown : Server A = record s { batch = s.batch ++ n ∷ [] } in
      ground
        (arith, timer_off-send grown t answers, length-append s.batch (n ∷ []), v.armed, v.bounded)
  step-Inv s t (timer_fired answers) v e = ground (arith, timer_off-send s t answers)

  run-Inv : (s t : Server A) (es : List (Event A)) → Inv s → run s es ≡ some t → Inv t
  unfolding run
  run-Inv s t [] v e = ground arith
  run-Inv s t (x ∷ es) v e = elim (Option-cases (step s x)) [
    | inl fatal ↦ absurd (ground arith)
    | inr (s', went) ↦ run-Inv s' t es (step-Inv s s' x v went) (ground arith)
  ]

  run-conserves :
      (s t : Server A) (es : List (Event A))
      → run s es ≡ some t
      → t.delivered ++ t.batch ≡ s.delivered ++ (s.batch ++ queued es)
  unfolding run
  run-conserves s t [] e = ground (arith, append-nil s.batch)
  run-conserves s t (x ∷ es) e = elim (Option-cases (step s x)) [
    | inl fatal ↦ absurd (ground arith)
    | inr (s', went) ↦ run-conserves s' t es (ground arith) ∙ step-conserves s s' x es went
  ]

  -- As long as the notifier of a new server runs, the notifications that the engine acknowledged,
  -- followed by those in the batch, are the ones that were queued, in order and each once; a batch
  -- that is not empty has its timer set, so it waits for no further notification; and a batch is
  -- below a batch size of two or more.
  pub run-new_server_conserves :
      (cfg : ServerConfig) (t : Server A) (es : List (Event A))
      → run (new_server cfg) es ≡ some t
      → (t.delivered ++ t.batch ≡ queued es) × Inv t
  unfolding new_server
  run-new_server_conserves cfg t es e = (run-conserves _ t es e, run-Inv _ t es (ground arith) e)

  -- A batch size of one is never reached: notifications that arrive before the timer fires are all
  -- kept back, whatever their number.
  pub batch_size_one_waits :
      (s : Server A) (n : A) (answers : ℕ → Bool)
      → s.config.batch_size ≡ 1
      → step s (notified n answers)
        ≡ some (record s {
          batch = s.batch ++ n ∷ [];
          timer = (if length s.batch == 0 then true else s.timer);
        })
  unfolding step
  batch_size_one_waits s n answers e = ground (arith, length-append s.batch (n ∷ []))
