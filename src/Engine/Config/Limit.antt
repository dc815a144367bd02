-- ===== src/Engine/Config/Limit.antt =====
-- engine/config/notifier.go: `rateLimitVS`. The keys are names of vservers, and a configuration of a
-- vserver is a number. A map that is `nil` has no entries.
use seesaw.Base.{ℕ, ◌+◌, Bool, true, false, List, [], ◌∷◌, ltb, if◌then◌else◌, lookup, is_some}

abbrev pub Vservers : Type 0
Vservers = List (ℕ × ℕ)

abbrev pub vs_limit : ℕ
vs_limit = 10

-- The first loop.
unfoldable pub has_deletion : Vservers → Vservers → Bool
has_deletion new_vs [] = false
has_deletion new_vs ((name, vs) ∷ old_vs) =
    let rest = has_deletion new_vs old_vs in if is_some (lookup name new_vs) then rest else true

-- The loop over `oldVS`: only deletions.
unfoldable pub limit_deletions : Vservers → ℕ → Vservers → Vservers
limit_deletions new_vs deleted [] = []
limit_deletions new_vs deleted ((name, vs) ∷ old_vs) =
    let there = limit_deletions new_vs deleted old_vs in
    let gone = limit_deletions new_vs (deleted + 1) old_vs in
    if is_some (lookup name new_vs)
    then (name, vs) ∷ there
    else if ltb deleted vs_limit
    then gone
    else (name, vs) ∷ there

-- The loop over `newVS`.
unfoldable pub limit_additions : Vservers → ℕ → Vservers → Vservers
limit_additions old_vs added [] = []
limit_additions old_vs added ((name, vs) ∷ new_vs) =
    let there = limit_additions old_vs added new_vs in
    let more = limit_additions old_vs (added + 1) new_vs in
    if is_some (lookup name old_vs)
    then (name, vs) ∷ there
    else if ltb added vs_limit
    then (name, vs) ∷ more
    else there

-- `rateLimitVS`
unfoldable pub rate_limit_vs : Vservers → Vservers → Vservers
unfolding has_deletion limit_deletions limit_additions
rate_limit_vs new_vs old_vs =
    if has_deletion new_vs old_vs
    then limit_deletions new_vs 0 old_vs
    else limit_additions old_vs 0 new_vs
