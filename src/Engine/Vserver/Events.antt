-- ===== src/Engine/Vserver/Events.antt =====
-- engine/vserver.go: check notifications, overrides and the shutdown of a vserver.
use seesaw.Base.{
  ℕ, Bool, true, false, not, ◌&&◌, ◌||◌, Option, none, some, List, [], ◌∷◌, ◌++◌, ◌==◌,
  if◌then◌else◌, lookup, insert, map,
}
use seesaw.Healthcheck.Check.Defs
use seesaw.Engine.Vserver.Data.{ServiceKey, Destination, Service, Op, Env}
use seesaw.Engine.Vserver.Service.{dest_up, service_down}
use seesaw.Engine.Vserver.State.{
  VserverCheck, Vserver, find, replace, is_active, with_service, service_update_state, vserver_down,
}

-- `svc.dests[ip]`, and the write through the pointer to a destination.
abbrev pub find_dest : ℕ → List Destination → Option Destination
find_dest ip [] = none
find_dest ip (d ∷ ds) = if d.ip == ip then some d else find_dest ip ds

abbrev pub replace_dest : ℕ → Destination → List Destination → List Destination
replace_dest ip d' [] = []
replace_dest ip d' (d ∷ ds) =
    let rest = replace_dest ip d' ds in if d.ip == ip then d' ∷ ds else d ∷ rest

abbrev pub xor : Bool → Bool → Bool
xor true b = not b
xor false b = b

-- The loop over `d.checks`. A check that is not in the vserver's map hears no notification.
unfoldable pub all_checks_healthy : List (ℕ × VserverCheck) → List ℕ → Bool
all_checks_healthy checks [] = true
all_checks_healthy checks (k ∷ ks) =
    let rest = all_checks_healthy checks ks in
    elim (lookup k checks) [
      | none ↦ false
      | some c ↦ if Defs.is_healthy c.status.state then rest else false
    ]

unfoldable pub dest_health : Vserver → Destination → Bool
unfolding all_checks_healthy
dest_health v d = d.backend.enabled && all_checks_healthy v.checks d.checks

abbrev pub with_dest : Service → ℕ → Destination → Service
with_dest s ip d = record s { dests = replace_dest ip d s.dests }

-- `destination.updateState`, for the destination `d` of the service `s`.
unfoldable pub update_found_dest :
    Env → Vserver → ServiceKey → Service → Destination → Vserver × List Op
update_found_dest env v key s d =
    let healthy = dest_health v d in
    let d' : Destination = record d { healthy = healthy } in
    let v' : Vserver = record v { services = replace key (with_dest s d.ip d') v.services } in
    if not (xor d.healthy healthy)
    then (v, [])
    else if s.active && healthy
    then (let (d'', ops) = dest_up s.ipvs_svc d' in with_service v key (with_dest s d.ip d'', ops))
    else if xor s.active healthy || xor s.healthy healthy
    then service_update_state env v' key
    else (v', [])

unfoldable pub on_dest :
    (Vserver → ServiceKey → Service → Destination → Vserver × List Op)
    → Vserver
    → ServiceKey × ℕ
    → Vserver × List Op
on_dest act v (key, ip) = elim (find key v.services) [
  | none ↦ (v, [])
  | some s ↦ elim (find_dest ip s.dests) [ none ↦ (v, []) | some d ↦ act v key s d ]
]

-- A loop over destinations that are named by their keys.
unfoldable pub for_dests :
    (Vserver → ServiceKey → Service → Destination → Vserver × List Op)
    → Vserver
    → List (ServiceKey × ℕ)
    → Vserver × List Op
for_dests act v [] = (v, [])
for_dests act v (r ∷ rs) =
    let (v', ops) = on_dest act v r in let (v'', more) = for_dests act v' rs in (v'', ops ++ more)

pub record CheckNotification : Type 0 where
  pub key : ℕ
  pub status : Defs.Status

unfoldable pub apply_status : Env → Vserver → ℕ → VserverCheck → Defs.Status → Vserver × List Op
apply_status env v k c st =
    let v' : Vserver = record v { checks = insert k (record c { status = st }) v.checks } in
    if Defs.same_state c.status.state st.state
    then (v', [])
    else for_dests (update_found_dest env) v' c.dests

-- `handleCheckNotification`
unfoldable pub handle_check_notification : Env → Vserver → CheckNotification → Vserver × List Op
handle_check_notification env v n =
    if not v.enabled then (v, []) else elim (lookup n.key v.checks) [
      | none ↦ (v, [])
      | some c ↦ apply_status env v n.key c n.status
    ]

pub data OverrideState : Type 0 where
  override_default override_disable override_enable : OverrideState

-- The body of the loops of `handleOverride` for a backend or a destination override.
unfoldable pub override_dest :
    Env → ℕ → OverrideState → Vserver → ServiceKey → Service → Destination → Vserver × List Op
override_dest env hostname o v key s d =
    let set = λ (h : Bool).
      service_update_state env
        (record v {
          services = replace key (with_dest s d.ip (record d { healthy = h })) v.services;
        })
        key in
    if not (d.backend.hostname == hostname) then (v, []) else elim o [
      | override_default ↦ (v, [])
      | override_disable ↦ if d.active then set false else (v, [])
      | override_enable ↦ if not d.active && not d.healthy then set true else (v, [])
    ]

abbrev pub dest_refs : Service → List (ServiceKey × ℕ)
dest_refs s = map (λ (d : Destination). (s.key, d.ip)) s.dests

abbrev pub all_refs : List Service → List (ServiceKey × ℕ)
all_refs [] = []
all_refs (s ∷ ss) = dest_refs s ++ all_refs ss

-- `handleOverride` for a `BackendOverride`, and for a `DestinationOverride`, whose destination name is
-- compared in the same way.
unfoldable pub handle_dest_override : Env → Vserver → ℕ → OverrideState → Vserver × List Op
handle_dest_override env v hostname o =
    for_dests (override_dest env hostname o) v (all_refs v.services)

-- The body of the loop of `downAll`, for the service under a key.
unfoldable pub down_one : Env → Vserver → ServiceKey → Vserver × List Op
down_one env v key = elim (find key v.services) [
  | none ↦ (v, [])
  | some s ↦
      let (v', ops) = if is_active v s.vip then vserver_down env v s.vip else (v, []) in
      elim (find key v'.services) [
        | none ↦ (v', ops)
        | some s' ↦
            if s'.active
            then (let (v'', more) = with_service v' key (service_down s') in (v'', ops ++ more))
            else (v', ops)
      ]
]

unfoldable pub down_keys : Env → Vserver → List ServiceKey → Vserver × List Op
unfolding down_one
down_keys env v [] = (v, [])
down_keys env v (key ∷ keys) =
    let (v', ops) = down_one env v key in
    let (v'', more) = down_keys env v' keys in (v'', ops ++ more)

-- `downAll`
unfoldable pub down_all : Env → Vserver → Vserver × List Op
unfolding down_keys
down_all env v = down_keys env v (map (λ (s : Service). s.key) v.services)

-- What the loop of `run` takes from its notification and override channels.
pub data Event : Type 0 where
  check_notified : CheckNotification → Event
  dest_overridden : ℕ → OverrideState → Event

unfoldable pub handle : Env → Vserver → Event → Vserver × List Op
handle env v (check_notified n) = handle_check_notification env v n
handle env v (dest_overridden hostname o) = handle_dest_override env v hostname o

unfoldable pub run : Env → Vserver → List Event → Vserver × List Op
run env v [] = (v, [])
run env v (e ∷ es) =
    let (v', ops) = handle env v e in let (v'', more) = run env v' es in (v'', ops ++ more)
