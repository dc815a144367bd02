-- ===== src/Engine/Ipc/Rights.antt =====
-- engine/ipc.go: which calls are refused.
use seesaw.Base.{
  ℕ, ◌≡◌, refl, Bool, true, false, not, ◌&&◌, ◌||◌, Option, none, some, List, [], ◌∷◌, arith, leb,
  ◌==◌, Bool-cases, Option-cases, inl, inr, if◌then◌else◌, is_some,
}
use seesaw.Engine.Access.Defs.{has_access}
use seesaw.Engine.Ipc.Context.{
  Context, AuthGroups, is_authenticated, is_trusted, has_admin, has_operator, has_reader, can_read,
  can_write,
}
use seesaw.Engine.Ipc.Server.{Server, Reply, err_args, err_context, err_access}
use seesaw.Engine.Ipc.Handlers
use seesaw.Engine.Ipc.Calls.{
  Call, serve, failover, ha_config, ha_status, healthchecks, cluster_status, config_status,
  config_reload, bgp_neighbors, vlans, vservers, backends, ha_update, ha_state, health_state,
  config_source, override_backend, override_destination, override_vserver,
}

abbrev mem : ℕ → List ℕ → Bool
mem g [] = false
mem g (h ∷ hs) = h == g || mem g hs

-- What a caller is: 5 is a trusted component, 4 an administrator, 3 an operator, 2 a reader, 1 any
-- other user that is authenticated, and 0 all else.
abbrev pub rank : AuthGroups → Context → ℕ
rank auth ctx =
    if is_trusted ctx
    then 5
    else if not (is_authenticated ctx)
    then 0
    else if mem auth.admin ctx.user.groups
    then 4
    else if mem auth.operator ctx.user.groups
    then 3
    else if mem auth.reader ctx.user.groups
    then 2
    else 1

abbrev pub first_of {ℓ} : {A : Type ℓ} → Option (Option Context × A) → Option Context
first_of none = none
first_of (some (ctx, a)) = ctx

abbrev pub ctx_of : Option Handlers.OverrideArgs → Option Context
ctx_of none = none
ctx_of (some args) = args.ctx

abbrev pub is_ranked : AuthGroups → ℕ → Option Context → Bool
is_ranked auth least none = false
is_ranked auth least (some ctx) = leb least (rank auth ctx)

-- An operator needs a grant for the vserver. A call that names none is not refused for its user.
abbrev pub may_override : AuthGroups → Server → Option Handlers.OverrideArgs → Bool
may_override auth s none = false
may_override auth s (some args) = elim (args.ctx) [
  | none ↦ false
  | some ctx ↦ elim (args.vserver) [
    | none ↦ leb 1 (rank auth ctx)
    | some o ↦
        leb 4 (rank auth ctx)
        || rank auth ctx == 3
          && is_some (has_access s.manager.vserver_access o.vserver_name ctx.user.username)
  ]
]

abbrev pub may : AuthGroups → Server → Call → Bool
may auth s (failover ctx) = is_ranked auth 4 ctx
may auth s (config_reload ctx) = is_ranked auth 4 ctx
may auth s (config_source args) = is_ranked auth 4 (first_of args)
may auth s (override_backend args) = is_ranked auth 4 (ctx_of args)
may auth s (override_destination args) = is_ranked auth 4 (ctx_of args)
may auth s (override_vserver args) = may_override auth s args
may auth s (ha_status ctx) = is_ranked auth 2 ctx
may auth s (cluster_status ctx) = is_ranked auth 2 ctx
may auth s (config_status ctx) = is_ranked auth 2 ctx
may auth s (bgp_neighbors ctx) = is_ranked auth 2 ctx
may auth s (vlans ctx) = is_ranked auth 2 ctx
may auth s (vservers ctx) = is_ranked auth 2 ctx
may auth s (ha_config ctx) = is_ranked auth 5 ctx
may auth s (ha_update args) = is_ranked auth 5 (first_of args)
may auth s (ha_state args) = is_ranked auth 5 (first_of args)
may auth s (healthchecks ctx) = is_ranked auth 5 ctx
may auth s (health_state args) = is_ranked auth 5 (first_of args)
may auth s (backends ctx) = is_ranked auth 5 ctx

abbrev pub is_refusal : Reply → Bool
is_refusal err_args = true
is_refusal err_context = true
is_refusal err_access = true
is_refusal _ = false

has_admin-mem : (auth : AuthGroups) (gs : List ℕ) → has_admin auth gs ≡ mem auth.admin gs
unfolding has_admin
has_admin-mem auth [] = refl
has_admin-mem auth (g ∷ gs) = ground (arith, has_admin-mem auth gs)

has_operator-mem :
    (auth : AuthGroups) (gs : List ℕ)
    → has_operator auth gs ≡ (mem auth.admin gs || mem auth.operator gs)
unfolding has_operator
has_operator-mem auth [] = refl
has_operator-mem auth (g ∷ gs) = ground (arith, has_operator-mem auth gs)

has_reader-mem :
    (auth : AuthGroups) (gs : List ℕ)
    → has_reader auth gs ≡ (mem auth.admin gs || mem auth.operator gs || mem auth.reader gs)
unfolding has_reader
has_reader-mem auth [] = refl
has_reader-mem auth (g ∷ gs) = ground (arith, has_reader-mem auth gs)

can_write-rank : (auth : AuthGroups) (ctx : Context) → can_write auth ctx ≡ leb 4 (rank auth ctx)
unfolding can_write
can_write-rank auth ctx = ground (arith, has_admin-mem auth ctx.user.groups)

can_read-rank : (auth : AuthGroups) (ctx : Context) → can_read auth ctx ≡ leb 2 (rank auth ctx)
unfolding can_read
can_read-rank auth ctx = ground (arith, has_reader-mem auth ctx.user.groups)

is_trusted-rank : (auth : AuthGroups) (ctx : Context) → is_trusted ctx ≡ leb 5 (rank auth ctx)
is_trusted-rank auth ctx = ground arith

-- The call is refused unless it may be made, and then changes nothing.
abbrev pub Refuses : Server → Bool → Server × Reply → Type 0
Refuses s allowed (s', reply) = (is_refusal reply ≡ not allowed) × (allowed ≡ false → s' ≡ s)

guarded-Refuses :
    (auth : AuthGroups) (least : ℕ) (allowed : Context → Bool) (ctx : Option Context)
    (result : Server × Reply) (s : Server)
    → ((c : Context) → allowed c ≡ leb least (rank auth c))
    → is_refusal result.1 ≡ false
    → Refuses s (is_ranked auth least ctx) (Handlers.guarded allowed ctx result s)
guarded-Refuses auth least allowed none result s ranks fine = (refl, λ h. refl)
guarded-Refuses auth least allowed (some c) result s ranks fine = elim (Bool-cases (allowed c)) [
  | inl passes ↦ rw (passes, ← ranks c, passes) (fine, λ h. absurd (ground arith))
  | inr fails ↦ rw (fails, ← ranks c, fails) (refl, λ h. refl)
]

access_check-rank :
    (auth : AuthGroups) (ctx : Context) (vserver : ℕ) (s : Server)
    → ((is_authenticated ctx || is_trusted ctx) && Handlers.access_check auth ctx vserver s) ≡ (
        leb 4 (rank auth ctx)
        || rank auth ctx == 3
          && is_some (has_access s.manager.vserver_access vserver ctx.user.username))
unfolding Handlers.access_check
access_check-rank auth ctx vserver s =
    ground (arith, has_admin-mem auth ctx.user.groups, has_operator-mem auth ctx.user.groups)

override_vserver-Refuses :
    (auth : AuthGroups) (args : Option Handlers.OverrideArgs) (s : Server)
    → Refuses s (may_override auth s args) (Handlers.override_vserver auth args s)
unfolding Handlers.override_vserver
override_vserver-Refuses auth none s = (refl, λ h. refl)
override_vserver-Refuses auth (some args) s = elim (Option-cases args.ctx) [
  | inl nobody ↦ rw (nobody) (refl, λ h. refl)
  | inr (c, by) ↦ elim (Option-cases args.vserver) [
    | inl nothing ↦ rw (by, nothing) (ground arith, λ h. ground arith)
    | inr (o, asked) ↦
        let test = access_check-rank auth c o.vserver_name s in
        rw (by, asked) (ground arith, λ h. ground arith)
  ]
]

-- A call is refused exactly if its caller lacks the right to it, and a call that is refused changes
-- nothing. Trusted components may make all calls, and only they HAConfig, HAUpdate, HAState, Healthchecks,
-- HealthState and Backends. Administrators may also fail over, change the configuration's source, reload it
-- and override; operators may override vservers that they were granted; and readers and their betters may
-- ask for the status of HA, cluster and configuration, BGP neighbours, VLANs and vservers. A call without
-- a context, or with no arguments, is refused.
pub serve-Refuses :
    (auth : AuthGroups) (call : Call) (s : Server) → Refuses s (may auth s call) (serve auth call s)
unfolding serve
serve-Refuses auth (failover ctx) s = guarded-Refuses auth 4 _ ctx _ s (can_write-rank auth) refl
serve-Refuses auth (config_reload ctx) s =
    guarded-Refuses auth 4 _ ctx _ s (can_write-rank auth) (ground arith)
serve-Refuses auth (config_source none) s = (refl, λ h. refl)
serve-Refuses auth (config_source (some (ctx, name))) s =
    guarded-Refuses auth 4 _ ctx _ s (can_write-rank auth) (ground arith)
serve-Refuses auth (override_backend none) s = (refl, λ h. refl)
serve-Refuses auth (override_backend (some args)) s =
    guarded-Refuses auth 4 _ args.ctx _ s (can_write-rank auth) (ground arith)
serve-Refuses auth (override_destination none) s = (refl, λ h. refl)
serve-Refuses auth (override_destination (some args)) s =
    guarded-Refuses auth 4 _ args.ctx _ s (can_write-rank auth) (ground arith)
serve-Refuses auth (override_vserver args) s = override_vserver-Refuses auth args s
serve-Refuses auth (ha_status ctx) s = guarded-Refuses auth 2 _ ctx _ s (can_read-rank auth) refl
serve-Refuses auth (cluster_status ctx) s =
    guarded-Refuses auth 2 _ ctx _ s (can_read-rank auth) (ground arith)
serve-Refuses auth (config_status ctx) s =
    guarded-Refuses auth 2 _ ctx _ s (can_read-rank auth) (ground arith)
serve-Refuses auth (bgp_neighbors ctx) s =
    guarded-Refuses auth 2 _ ctx _ s (can_read-rank auth) refl
serve-Refuses auth (vlans ctx) s = guarded-Refuses auth 2 _ ctx _ s (can_read-rank auth) refl
serve-Refuses auth (vservers ctx) s = guarded-Refuses auth 2 _ ctx _ s (can_read-rank auth) refl
serve-Refuses auth (ha_config ctx) s =
    guarded-Refuses auth 5 _ ctx _ s (is_trusted-rank auth) (ground arith)
serve-Refuses auth (ha_update none) s = (refl, λ h. refl)
serve-Refuses auth (ha_update (some (ctx, status))) s =
    guarded-Refuses auth 5 _ ctx _ s (is_trusted-rank auth) (ground arith)
serve-Refuses auth (ha_state none) s = (refl, λ h. refl)
serve-Refuses auth (ha_state (some (ctx, state))) s =
    guarded-Refuses auth 5 _ ctx _ s (is_trusted-rank auth) (ground arith)
serve-Refuses auth (healthchecks ctx) s =
    guarded-Refuses auth 5 _ ctx _ s (is_trusted-rank auth) refl
serve-Refuses auth (health_state none) s = (refl, λ h. refl)
serve-Refuses auth (health_state (some (ctx, ns))) s =
    guarded-Refuses auth 5 _ ctx _ s (is_trusted-rank auth) refl
serve-Refuses auth (backends ctx) s = guarded-Refuses auth 5 _ ctx _ s (is_trusted-rank auth) refl
