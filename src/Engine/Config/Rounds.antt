-- ===== src/Engine/Config/Rounds.antt =====
-- engine/config/notifier.go: how much nearer `rateLimitVS` brings the vservers to a new configuration.
use seesaw.Base.{
  ℕ, suc, ◌+◌, ◌-◌, ◌≤◌, ◌⊎◌, ◌≡◌, refl, ap, true, none, [], ◌∷◌, arith, ltb, Bool-cases, inl, inr,
  if◌then◌else◌, AreKeysDistinct, lookup, is_some, ℕ_discrete,
}
use seesaw.Engine.Config.Limit.{
  Vservers, has_deletion, limit_deletions, limit_additions, rate_limit_vs,
}

-- How many vservers of the second map the first one does not have.
abbrev pub absent : Vservers → Vservers → ℕ
absent vs [] = 0
absent vs ((name, v) ∷ rest) =
    let more = absent vs rest in if is_some (lookup name vs) then more else suc more

has_deletion-absent :
    (new_vs old_vs : Vservers) → has_deletion new_vs old_vs ≡ ltb 0 (absent new_vs old_vs)
unfolding has_deletion
has_deletion-absent new_vs [] = refl
has_deletion-absent new_vs ((name, v) ∷ old_vs) = ground (arith, has_deletion-absent new_vs old_vs)

absent-limit_deletions :
    (new_vs old_vs : Vservers) (deleted : ℕ)
    → deleted ≤ 10
    → absent new_vs (limit_deletions new_vs deleted old_vs) ≡ absent new_vs old_vs - (10 - deleted)
unfolding limit_deletions
absent-limit_deletions new_vs [] deleted h = omega arith
absent-limit_deletions new_vs ((name, v) ∷ old_vs) deleted h = ground (
  arith,
  absent-limit_deletions new_vs old_vs deleted,
  absent-limit_deletions new_vs old_vs (deleted + 1),
)

-- A vserver that stays keeps its old configuration.
lookup-limit_deletions :
    (new_vs old_vs : Vservers) (deleted name : ℕ)
    → is_some (lookup name new_vs) ≡ true
    → lookup name (limit_deletions new_vs deleted old_vs) ≡ lookup name old_vs
unfolding limit_deletions
lookup-limit_deletions new_vs [] deleted name h = refl
lookup-limit_deletions new_vs ((n, v) ∷ old_vs) deleted name h = elim (ℕ_discrete n name) [
  | yes e ↦ ground (
    arith,
    ap (λ i. lookup i new_vs) e,
    lookup-limit_deletions new_vs old_vs deleted name h,
    lookup-limit_deletions new_vs old_vs (deleted + 1) name h,
  )
  | no ne ↦ ground (
    arith,
    lookup-limit_deletions new_vs old_vs deleted name h,
    lookup-limit_deletions new_vs old_vs (deleted + 1) name h,
  )
]

absent-agree :
    (a b vs : Vservers)
    → ((name : ℕ)
        → is_some (lookup name vs) ≡ true
        → is_some (lookup name a) ≡ is_some (lookup name b))
    → absent a vs ≡ absent b vs
absent-agree a b [] h = refl
absent-agree a b ((name, v) ∷ vs) h =
    let agree : is_some (lookup name a) ≡ is_some (lookup name b) = h name (ground arith) in
    let rest : absent a vs ≡ absent b vs = absent-agree a b vs (λ n there. h n (ground arith)) in
    ground arith

absent_self : (vs : Vservers) → absent vs vs ≡ 0
absent_self [] = refl
absent_self ((name, v) ∷ vs) =
    let rest : absent ((name, v) ∷ vs) vs ≡ absent vs vs =
      absent-agree ((name, v) ∷ vs) vs vs (λ n there. ground arith) in
    ground (arith, absent_self vs)

lookup-limit_additions :
    (old_vs new_vs : Vservers) (added name : ℕ)
    → lookup name new_vs ≡ none
    → lookup name (limit_additions old_vs added new_vs) ≡ none
unfolding limit_additions
lookup-limit_additions old_vs [] added name h = refl
lookup-limit_additions old_vs ((n, v) ∷ new_vs) added name h = ground (
  arith,
  lookup-limit_additions old_vs new_vs added name,
  lookup-limit_additions old_vs new_vs (added + 1) name,
)

absent-limit_additions :
    (vs old_vs new_vs : Vservers) (added : ℕ)
    → absent vs new_vs ≡ 0
    → absent vs (limit_additions old_vs added new_vs) ≡ 0
unfolding limit_additions
absent-limit_additions vs old_vs [] added h = refl
absent-limit_additions vs old_vs ((n, v) ∷ new_vs) added h = ground (
  arith,
  absent-limit_additions vs old_vs new_vs added,
  absent-limit_additions vs old_vs new_vs (added + 1),
)

-- What does not occur in a map may be put before it.
absent-cons :
    (name v : ℕ) (vs a : Vservers) → lookup name a ≡ none → absent ((name, v) ∷ vs) a ≡ absent vs a
absent-cons name v vs a h = absent-agree ((name, v) ∷ vs) vs a (λ n there.
    elim (ℕ_discrete name n) [
      | yes e ↦ absurd (ground (arith, ap (λ i. lookup i a) e))
      | no ne ↦ ground arith
    ])

limit_additions-absent :
    (old_vs new_vs : Vservers) (added : ℕ)
    → added ≤ 10
    → AreKeysDistinct new_vs
    → absent (limit_additions old_vs added new_vs) new_vs ≡ absent old_vs new_vs - (10 - added)
unfolding limit_additions
limit_additions-absent old_vs [] added h d = omega arith
limit_additions-absent old_vs ((name, v) ∷ new_vs) added h d = ground (
  arith,
  limit_additions-absent old_vs new_vs added h d.1,
  limit_additions-absent old_vs new_vs (added + 1),
  absent-cons name v (limit_additions old_vs added new_vs) new_vs d.0,
  absent-cons name v (limit_additions old_vs (added + 1) new_vs) new_vs d.0,
  lookup-limit_additions old_vs new_vs added name d.0,
)

limit_additions-all :
    (old_vs new_vs : Vservers) (added : ℕ)
    → absent old_vs new_vs + added ≤ 10
    → limit_additions old_vs added new_vs ≡ new_vs
unfolding limit_additions
limit_additions-all old_vs [] added h = refl
limit_additions-all old_vs ((name, v) ∷ new_vs) added h =
    ground (
      arith,
      limit_additions-all old_vs new_vs added,
      limit_additions-all old_vs new_vs (added + 1),
    )

-- One step, by what is still to be deleted and to be added.
pub deletions_step :
    (new_vs old_vs : Vservers)
    → absent new_vs (rate_limit_vs new_vs old_vs) ≡ absent new_vs old_vs - 10
unfolding rate_limit_vs
deletions_step new_vs old_vs = ground (
  arith,
  has_deletion-absent new_vs old_vs,
  absent-limit_deletions new_vs old_vs 0,
  absent-limit_additions new_vs old_vs new_vs 0 (absent_self new_vs),
)

pub additions_step :
    (new_vs old_vs : Vservers)
    → AreKeysDistinct new_vs
    → absent (rate_limit_vs new_vs old_vs) new_vs
      ≡ (if ltb 0 (absent new_vs old_vs) then absent old_vs new_vs else absent old_vs new_vs - 10)
unfolding rate_limit_vs
additions_step new_vs old_vs d =
    let same : absent (limit_deletions new_vs 0 old_vs) new_vs ≡ absent old_vs new_vs =
      absent-agree (limit_deletions new_vs 0 old_vs) old_vs new_vs
        (λ n there. ap is_some (lookup-limit_deletions new_vs old_vs 0 n there)) in
    ground (arith, has_deletion-absent new_vs old_vs, limit_additions-absent old_vs new_vs 0)

pub last_step :
    (new_vs old_vs : Vservers)
    → absent new_vs old_vs ≡ 0
    → absent old_vs new_vs ≤ 10
    → rate_limit_vs new_vs old_vs ≡ new_vs
unfolding rate_limit_vs
last_step new_vs old_vs none_gone few =
    ground (arith, has_deletion-absent new_vs old_vs, limit_additions-all old_vs new_vs 0)

absent-kept_deletions :
    (vs new_vs old_vs : Vservers) (deleted : ℕ)
    → absent vs old_vs ≡ 0
    → absent vs (limit_deletions new_vs deleted old_vs) ≡ 0
unfolding limit_deletions
absent-kept_deletions vs new_vs [] deleted h = refl
absent-kept_deletions vs new_vs ((n, v) ∷ old_vs) deleted h = ground (
  arith,
  absent-kept_deletions vs new_vs old_vs deleted,
  absent-kept_deletions vs new_vs old_vs (deleted + 1),
)

absent-cons-le : (name v : ℕ) (vs a : Vservers) → absent ((name, v) ∷ vs) a ≤ absent vs a
absent-cons-le name v vs [] = omega arith
absent-cons-le name v vs ((n, w) ∷ a) = ground (arith, absent-cons-le name v vs a)

limit_deletions-few :
    (new_vs old_vs : Vservers) (deleted : ℕ)
    → deleted ≤ 10
    → absent (limit_deletions new_vs deleted old_vs) old_vs + deleted ≤ 10
unfolding limit_deletions
limit_deletions-few new_vs [] deleted h = omega arith
limit_deletions-few new_vs ((name, v) ∷ old_vs) deleted h = ground (
  arith,
  limit_deletions-few new_vs old_vs deleted,
  limit_deletions-few new_vs old_vs (deleted + 1),
  absent-cons-le name v (limit_deletions new_vs deleted old_vs) old_vs,
)

limit_additions-few :
    (old_vs new_vs : Vservers) (added : ℕ)
    → added ≤ 10
    → absent old_vs (limit_additions old_vs added new_vs) + added ≤ 10
unfolding limit_additions
limit_additions-few old_vs [] added h = omega arith
limit_additions-few old_vs ((name, v) ∷ new_vs) added h =
    ground (
      arith,
      limit_additions-few old_vs new_vs added,
      limit_additions-few old_vs new_vs (added + 1),
    )

lookup-limit_additions_old :
    (old_vs new_vs : Vservers) (added name : ℕ)
    → is_some (lookup name old_vs) ≡ true
    → lookup name (limit_additions old_vs added new_vs) ≡ lookup name new_vs
unfolding limit_additions
lookup-limit_additions_old old_vs [] added name h = refl
lookup-limit_additions_old old_vs ((n, v) ∷ new_vs) added name h = elim (ℕ_discrete n name) [
  | yes e ↦ ground (
    arith,
    ap (λ i. lookup i old_vs) e,
    lookup-limit_additions_old old_vs new_vs added name h,
    lookup-limit_additions_old old_vs new_vs (added + 1) name h,
  )
  | no ne ↦ ground (
    arith,
    lookup-limit_additions_old old_vs new_vs added name h,
    lookup-limit_additions_old old_vs new_vs (added + 1) name h,
  )
]

-- The limited configuration of vservers lacks at most ten that ran, and has at most ten that did not,
-- and never both.
pub rate_limit_vs-few :
    (new_vs old_vs : Vservers)
    → (absent (rate_limit_vs new_vs old_vs) old_vs ≤ 10)
      × (absent old_vs (rate_limit_vs new_vs old_vs) ≤ 10)
      × ((absent (rate_limit_vs new_vs old_vs) old_vs ≡ 0)
          ⊎ (absent old_vs (rate_limit_vs new_vs old_vs) ≡ 0))
unfolding rate_limit_vs
rate_limit_vs-few new_vs old_vs = elim (Bool-cases (has_deletion new_vs old_vs)) [
  | inl deletes ↦ rw (deletes) (
      let few = limit_deletions-few new_vs old_vs 0 (omega arith) in
      let same = absent-kept_deletions old_vs new_vs old_vs 0 (absent_self old_vs) in
      (omega arith, omega arith, inr same))
  | inr adds ↦ rw (adds) (
      let few = limit_additions-few old_vs new_vs 0 (omega arith) in
      let all =
        absent-agree (limit_additions old_vs 0 new_vs) new_vs old_vs
          (λ n there. ap is_some (lookup-limit_additions_old old_vs new_vs 0 n there)) in
      let same : absent (limit_additions old_vs 0 new_vs) old_vs ≡ 0 =
        ground (arith, all, has_deletion-absent new_vs old_vs) in
      (omega arith, omega arith, inl same))
]
