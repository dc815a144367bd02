-- ===== src/Engine/Config/Checks.antt =====
-- engine/config/notifier.go: what comes of `configCheck` if it finds the same configuration on the
-- server again and again.
use seesaw.Base.{
  ℕ, zero, suc, ◌+◌, ◌*◌, ◌≤◌, ◌≡◌, refl, ap, ◌∙◌, true, false, Option, none, some, [], ◌∷◌, arith,
  Bool-cases, inl, inr, AreKeysDistinct, lookup,
}
use seesaw.Engine.Config.Limit.{Vservers, rate_limit_vs}
use seesaw.Engine.Config.Notifier.{
  Cluster, Protobuf, Notification, Answers, Notifier, source_server, has_all, same_cluster,
  out_of_date, publish, config_check, receive,
}
use seesaw.Engine.Config.Rounds.{absent, deletions_step, additions_step, last_step}

-- Checks, after each of which the engine takes the notification.
unfoldable pub checks : ℕ → Answers → Notifier → Option Notifier
checks zero answers n = some n
checks (suc k) answers n = elim (config_check answers n) [
  | none ↦ none
  | some n' ↦ checks k answers (receive n')
]

has_all-cons :
    (name v : ℕ) (other vs : Vservers)
    → lookup name vs ≡ none
    → has_all ((name, v) ∷ other) vs ≡ has_all other vs
has_all-cons name v other [] h = refl
has_all-cons name v other ((n, w) ∷ vs) h = ground (arith, has_all-cons name v other vs)

has_all_self : (vs : Vservers) → AreKeysDistinct vs → has_all vs vs ≡ true
has_all_self [] d = refl
has_all_self ((name, v) ∷ vs) d = ground (arith, has_all-cons name v vs vs d.0, has_all_self vs d.1)

same_cluster_refl : (c : Cluster) → AreKeysDistinct c.vservers → same_cluster c c ≡ true
same_cluster_refl c d = ground (arith, has_all_self c.vservers d)

out_of_date_irrefl : (p : Protobuf) → out_of_date p p ≡ false
out_of_date_irrefl p = ground arith

module _ (answers : Answers) (cluster : Cluster) (protobuf : Protobuf) where
  -- The engine has taken the last notification, and the server has no older configuration.
  pub record IsReady (n : Notifier) (old : Protobuf) : Type 0 where
    pub from_server : n.source ≡ source_server
    pub taken : n.outgoing ≡ none
    pub last_protobuf : n.last.protobuf ≡ some old
    pub not_older : out_of_date old protobuf ≡ false

  abbrev note : Notification
  note = record {
    cluster = cluster;
    metadata_only = false;
    protobuf = some protobuf;
    source = source_server;
  }

  abbrev next : Notifier → Notifier
  next n = receive (publish source_server note (record n { peer_failures = 0 }))

  module _ (answered : answers.server ≡ some (cluster, protobuf)) where
    checks-suc :
        (k : ℕ) (n : Notifier) (old : Protobuf)
        → IsReady n old
        → checks (suc k) answers n ≡ checks k answers (next n)
    unfolding checks config_check
    checks-suc k n old r = ground arith

  next-IsReady :
      (n : Notifier) (old : Protobuf) → IsReady n old → (p : Protobuf) × IsReady (next n) p
  unfolding publish
  next-IsReady n old r = elim (Bool-cases (same_cluster cluster n.last.cluster)) [
    | inl same ↦ (old, ground arith)
    | inr differ ↦ (protobuf, ground (arith, out_of_date_irrefl protobuf))
  ]

  next-same : (n : Notifier) → same_cluster cluster n.last.cluster ≡ true → (next n).last ≡ n.last
  unfolding publish
  next-same n same = ground arith

  next-differ :
      (n : Notifier)
      → n.outgoing ≡ none
      → same_cluster cluster n.last.cluster ≡ false
      → (next n).last.cluster
        ≡ record cluster { vservers = rate_limit_vs cluster.vservers n.last.cluster.vservers }
  unfolding publish
  next-differ n taken differ = ground arith

  module _ (answered : answers.server ≡ some (cluster, protobuf)) where
    abbrev Reached : ℕ → Notifier → Type 0
    Reached k n =
        (n' : Notifier) × (checks k answers n ≡ some n')
        × (same_cluster cluster n'.last.cluster ≡ true)

    Reached-suc :
        (k : ℕ) (n : Notifier) (old : Protobuf)
        → IsReady n old
        → Reached k (next n)
        → Reached (suc k) n
    Reached-suc k n old r (n', run, same) = (n', checks-suc answered k n old r ∙ run, same)

    -- What the server says is known already, and stays known.
    Reached-same :
        (k : ℕ) (n : Notifier) (old : Protobuf)
        → IsReady n old
        → same_cluster cluster n.last.cluster ≡ true
        → Reached k n
    unfolding checks
    Reached-same zero n old r same = (n, refl, same)
    Reached-same (suc k) n old r same =
        let (p, r') = next-IsReady n old r in
        Reached-suc k n old r (
          Reached-same k (next n) p r'
            (ap (λ (c : Notification). same_cluster cluster c.cluster) (next-same n same) ∙ same))

    module _ (distinct : AreKeysDistinct cluster.vservers) where
      -- One check, from a cluster that differs, if the rest is known to follow from what it leaves.
      Reached-step :
          (k : ℕ) (n : Notifier) (old : Protobuf)
          → IsReady n old
          → ((m : Notifier) (p : Protobuf)
              → IsReady m p
              → m.last.cluster ≡ record cluster {
                vservers = rate_limit_vs cluster.vservers n.last.cluster.vservers;
              }
              → Reached k m)
          → Reached (suc k) n
      Reached-step k n old r rest = elim (Bool-cases (same_cluster cluster n.last.cluster)) [
        | inl same ↦ Reached-same (suc k) n old r same
        | inr differ ↦
            let (p, r') = next-IsReady n old r in
            Reached-suc k n old r (rest (next n) p r' (next-differ n r.taken differ))
      ]

      Reached-all :
          (k d a : ℕ) (n : Notifier) (old : Protobuf)
          → d + suc a ≡ k
          → IsReady n old
          → absent cluster.vservers n.last.cluster.vservers ≤ 10 * d
          → absent n.last.cluster.vservers cluster.vservers ≤ 10 * suc a
          → Reached k n
      Reached-all zero d a n old rounds r gone new = absurd (omega arith)
      Reached-all (suc k) zero zero n old rounds r gone new = Reached-step k n old r (λ m p r' e.
          Reached-same k m p r' (
            ap (same_cluster cluster) e
            ∙ ap (λ vs. same_cluster cluster (record cluster { vservers = vs }))
                (last_step cluster.vservers n.last.cluster.vservers (omega arith) (omega arith))
            ∙ same_cluster_refl cluster distinct))
      Reached-all (suc k) zero (suc a) n old rounds r gone new = Reached-step k n old r (λ m p r' e.
          let vs = ap (λ (c : Cluster). c.vservers) e in
          Reached-all k zero a m p (omega arith) r'
            (ground (arith, vs, deletions_step cluster.vservers n.last.cluster.vservers))
            (ground (arith, vs, additions_step cluster.vservers n.last.cluster.vservers distinct)))
      Reached-all (suc k) (suc d) a n old rounds r gone new = Reached-step k n old r (λ m p r' e.
          let vs = ap (λ (c : Cluster). c.vservers) e in
          Reached-all k d a m p (omega arith) r'
            (ground (arith, vs, deletions_step cluster.vservers n.last.cluster.vservers))
            (ground (arith, vs, additions_step cluster.vservers n.last.cluster.vservers distinct)))

-- If every check finds the same configuration on the server, and the engine takes each notification
-- before the next check, the notifier's last configuration is that of the server after one check for
-- each ten vservers that are to go and one for each ten that are to come, of these one at least. The
-- last configuration must have a protobuf that is not newer than the server's.
pub checks_reach :
    (d a : ℕ) (answers : Answers) (cluster : Cluster) (protobuf old : Protobuf) (n : Notifier)
    → answers.server ≡ some (cluster, protobuf)
    → AreKeysDistinct cluster.vservers
    → n.source ≡ source_server
    → n.outgoing ≡ none
    → n.last.protobuf ≡ some old
    → out_of_date old protobuf ≡ false
    → absent cluster.vservers n.last.cluster.vservers ≤ 10 * d
    → absent n.last.cluster.vservers cluster.vservers ≤ 10 * suc a
    → (n' : Notifier) × (checks (d + suc a) answers n ≡ some n')
      × (same_cluster cluster n'.last.cluster ≡ true)
checks_reach d a answers cluster protobuf old n answered distinct server taken known not_older =
    Reached-all answers cluster protobuf answered distinct (d + suc a) d a n old refl
      (record { from_server = server; taken = taken; last_protobuf = known; not_older = not_older })
