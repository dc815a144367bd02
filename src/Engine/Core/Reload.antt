-- ===== src/Engine/Core/Reload.antt =====
-- engine/core.go: a new configuration of the cluster.
use seesaw.Base.{
  ℕ, ◌≡◌, refl, ap, ◌∙◌, Option, none, some, List, [], ◌∷◌, arith, if◌then◌else◌, Bool-cases,
  Option-cases, inl, inr, lookup, insert, lookup-insert, is_some, ℕ_discrete,
}
use seesaw.Engine.Marks.Defs.{MarkAllocator}
use seesaw.Engine.Vserver.Data.{Env}
use seesaw.Engine.Vserver.Config.Data.{Config, Configured}
use seesaw.Engine.Vserver.Config.Run.{quit}
use seesaw.Engine.Core.Defs.{
  Override, vserver_override, backend_override, destination_override, Running, queue_override,
  queue_at, queue_all, distribute_override, stop_unconfigured, new_running, spawn_new,
  distribute_all,
}

-- What an override leaves of a vserver, and of its updates.
abbrev pub core_of : Option Running → Option (Configured × List Config)
core_of none = none
core_of (some r) = some (r.vserver, r.updates)

queue_override-core :
    (r : Running) (o : Override) → core_of (some (queue_override r o)) ≡ core_of (some r)
unfolding queue_override
queue_override-core r o = ground arith

queue_at-core :
    (name n : ℕ) (o : Override) (vs : List (ℕ × Running))
    → core_of (lookup n (queue_at name o vs)) ≡ core_of (lookup n vs)
queue_at-core name n o vs = elim (Option-cases (lookup name vs)) [
  | inl missing ↦
      ap (λ v. core_of (lookup n v))
        (let same : queue_at name o vs ≡ vs = rw (queue_at, missing) refl in same)
  | inr (r, found) ↦ elim (ℕ_discrete name n) [
    | yes same ↦ ground (
      arith,
      lookup-insert name n (queue_override r o) vs,
      queue_override-core r o,
      ap (λ i. lookup i vs) same,
    )
    | no other ↦ ground (arith, lookup-insert name n (queue_override r o) vs)
  ]
]

queue_all-core :
    (n : ℕ) (o : Override) (vs : List (ℕ × Running))
    → core_of (lookup n (queue_all o vs)) ≡ core_of (lookup n vs)
queue_all-core n o [] = refl
queue_all-core n o ((name, r) ∷ rest) =
    ground (arith, queue_all-core n o rest, queue_override-core r o)

distribute_override-core :
    (n : ℕ) (o : Override) (vs : List (ℕ × Running))
    → core_of (lookup n (distribute_override o vs)) ≡ core_of (lookup n vs)
unfolding distribute_override
distribute_override-core n (vserver_override o) vs = queue_at-core o.vserver_name n _ vs
distribute_override-core n (backend_override h s) vs = queue_all-core n (backend_override h s) vs
distribute_override-core n (destination_override v d s) vs = queue_at-core v n _ vs

pub distribute_all-core :
    (n : ℕ) (os : List (ℕ × Override)) (vs : List (ℕ × Running))
    → core_of (lookup n (distribute_all os vs)) ≡ core_of (lookup n vs)
unfolding distribute_all
distribute_all-core n [] vs = refl
distribute_all-core n ((t, o) ∷ rest) vs =
    distribute_all-core n rest (distribute_override o vs) ∙ distribute_override-core n o vs

-- Whether a vserver is there.
pub core_of-is_some : (r s : Option Running) → core_of r ≡ core_of s → is_some r ≡ is_some s
core_of-is_some none none h = refl
core_of-is_some none (some s) h = absurd (ground arith)
core_of-is_some (some r) none h = absurd (ground arith)
core_of-is_some (some r) (some s) h = refl

pub lookup-stop_unconfigured :
    (env : Env) (configs : List (ℕ × Config)) (vs : List (ℕ × Running)) (ma : MarkAllocator) (n : ℕ)
    → lookup n (stop_unconfigured env configs vs ma).0
      ≡ (if is_some (lookup n configs) then lookup n vs else none)
unfolding stop_unconfigured
lookup-stop_unconfigured env configs [] ma n = ground arith
lookup-stop_unconfigured env configs ((name, r) ∷ rest) ma n =
    let after =
      (if is_some (lookup name configs)
        then ma
        else (quit env (record r.vserver { fwm_alloc = ma })).fwm_alloc) in
    elim (ℕ_discrete name n) [
      | yes same ↦ ground (
        arith,
        lookup-stop_unconfigured env configs rest after n,
        ap (λ i. lookup i configs) same,
      )
      | no other ↦ ground (arith, lookup-stop_unconfigured env configs rest after n)
    ]

pub lookup-spawn_new :
    (ma : MarkAllocator) (configs : List (ℕ × Config)) (vs : List (ℕ × Running)) (n : ℕ)
    → lookup n (spawn_new ma configs vs) ≡ (
        if is_some (lookup n vs)
        then lookup n vs
        else if is_some (lookup n configs)
        then some (new_running ma)
        else none)
unfolding spawn_new
lookup-spawn_new ma [] vs n = ground arith
lookup-spawn_new ma ((name, config) ∷ rest) vs n = elim (Bool-cases (is_some (lookup name vs))) [
  | inl there ↦ elim (ℕ_discrete name n) [
    | yes same ↦ ground (arith, lookup-spawn_new ma rest vs n, ap (λ i. lookup i vs) same)
    | no other ↦ ground (arith, lookup-spawn_new ma rest vs n)
  ]
  | inr new ↦ elim (ℕ_discrete name n) [
    | yes same ↦ ground (
      arith,
      lookup-spawn_new ma rest (insert name (new_running ma) vs) n,
      lookup-insert name n (new_running ma) vs,
      ap (λ i. lookup i vs) same,
    )
    | no other ↦ ground (
      arith,
      lookup-spawn_new ma rest (insert name (new_running ma) vs) n,
      lookup-insert name n (new_running ma) vs,
    )
  ]
]
