-- ===== src/Healthcheck/Manager/Sync.antt =====
-- What the manager runs after it took a map of configurations.
use seesaw.Base.{
  ℕ_discrete, ap, ℕ, ◌≡◌, Bool, Option, none, some, [], ◌∷◌, if◌then◌else◌, arith, lookup, is_some,
}
use seesaw.Healthcheck.Manager.Defs.{Runner, new_runner, stop, Runners, Configs, stopped_checks}

-- The check that goes on under an id: the old one, or a new one.
abbrev pub or_new : Bool → Option Runner → Runner
or_new dryrun none = new_runner dryrun
or_new dryrun (some hc) = hc

-- The checks that the manager drops are told to stop, and no other is.
pub lookup-stopped_checks :
    (configs : Configs) (hcs : Runners) (id : ℕ)
    → lookup id (stopped_checks configs hcs) ≡ (
        if is_some (lookup id configs)
        then none
        else elim (lookup id hcs) [ none ↦ none | some hc ↦ some (stop hc) ])
unfolding stopped_checks
lookup-stopped_checks configs [] id = ground arith
lookup-stopped_checks configs ((j, hc) ∷ hcs) id = elim (ℕ_discrete j id) [
  | yes e ↦
      ground (arith, lookup-stopped_checks configs hcs id, ap (λ i. is_some (lookup i configs)) e)
  | no ne ↦ ground (arith, lookup-stopped_checks configs hcs id)
]
