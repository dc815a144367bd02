-- ===== src/Healthcheck/Manager/Defs.antt =====
-- healthcheck/core.go: the running healthchecks of a server and their configuration channels.
use seesaw.Base.{
  ℕ, Bool, true, false, Option, none, some, List, [], ◌∷◌, ◌++◌, if◌then◌else◌, lookup, keep,
  is_some, map_values,
}
use seesaw.Healthcheck.Check.Defs.{Config}

-- What the manager holds of a running check: its channels. `update` has room for one configuration
-- and `quit` for one value.
pub record Runner : Type 0 where
  pub dryrun : Bool
  pub update : Option Config
  pub quit : Bool

unfoldable pub new_runner : Bool → Runner
new_runner dryrun = record { dryrun = dryrun; update = none; quit = false }

-- `Update` without `blocking`: an update that is still queued stays, and the new one is dropped.
unfoldable pub update : Runner → Config → Runner
update hc config = elim (hc.update) [ none ↦ record hc { update = some config } | some queued ↦ hc ]

-- `Stop`
unfoldable pub stop : Runner → Runner
stop hc = record hc { quit = true }

abbrev pub Runners : Type 0
Runners = List (ℕ × Runner)

abbrev pub Configs : Type 0
Configs = List (ℕ × Config)

-- The deleted checks: those that are stopped, and the map without them.
unfoldable pub stopped_checks : Configs → Runners → Runners
unfolding stop
stopped_checks configs [] = []
stopped_checks configs ((id, hc) ∷ hcs) =
    let rest = stopped_checks configs hcs in
    if is_some (lookup id configs) then rest else (id, stop hc) ∷ rest

abbrev pub remove_deleted : Configs → Runners → Runners
remove_deleted configs hcs = keep (λ id. is_some (lookup id configs)) hcs

-- `for id := range configs`
unfoldable pub spawn_new : Bool → Configs → Runners → Runners
unfolding new_runner
spawn_new dryrun [] hcs = hcs
spawn_new dryrun ((id, config) ∷ configs) hcs =
    spawn_new dryrun configs
      (if is_some (lookup id hcs) then hcs else hcs ++ (id, new_runner dryrun) ∷ [])

-- `hc.Update(configs[id])`; a key that is missing from the configurations would be a nil pointer.
unfoldable pub update_from : Configs → ℕ → Runner → Runner
update_from configs id hc = elim (lookup id configs) [ none ↦ hc | some c ↦ update hc c ]

unfoldable pub manage : Bool → Configs → Runners → Runners
manage dryrun configs hcs =
    map_values (update_from configs) (spawn_new dryrun configs (remove_deleted configs hcs))
