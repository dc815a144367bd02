-- ===== src/Engine/Vserver/State.antt =====
-- engine/vserver.go: how the state of a destination, a service and an IP address drive one another.
use seesaw.Base.{
  ℕ, Bool, true, false, not, ◌&&◌, ◌||◌, Option, none, some, List, [], ◌∷◌, ◌++◌, ◌==◌,
  if◌then◌else◌, lookup, insert, remove,
}
use seesaw.Healthcheck.Check.Defs
use seesaw.Engine.Vserver.Data.{
  Af, ipv4, ipv6, ServiceKey, Service, Op, bgp_advertise, bgp_withdraw, add_vip, delete_vip,
  add_vserver, delete_vserver, Env,
}
use seesaw.Engine.Vserver.Service.{update_dests, service_up, service_down, service_health}

-- A check of the vserver: what it last heard, and the destinations that it points to, by the keys of
-- their service and their own.
pub record VserverCheck : Type 0 where
  pub status : Defs.Status
  pub dests : List (ServiceKey × ℕ)

-- `active` and `lb_vservers` are the maps of the same names.
pub record Vserver : Type 0 where
  pub enabled : Bool
  pub services : List Service
  pub checks : List (ℕ × VserverCheck)
  pub active : List (ℕ × Bool)
  pub lb_vservers : List (ℕ × Bool)

abbrev pub same_af : Af → Af → Bool
same_af ipv4 ipv4 = true
same_af ipv6 ipv6 = true
same_af _ _ = false

abbrev pub same_key : ServiceKey → ServiceKey → Bool
same_key a b = same_af a.af b.af && (a.fwm == b.fwm && (a.proto == b.proto && a.port == b.port))

-- `v.services[key]`
abbrev pub find : ServiceKey → List Service → Option Service
find key [] = none
find key (s ∷ ss) = if same_key s.key key then some s else find key ss

-- The write through the pointer to a service.
abbrev pub replace : ServiceKey → Service → List Service → List Service
replace key s' [] = []
replace key s' (s ∷ ss) =
    let rest = replace key s' ss in if same_key s.key key then s' ∷ ss else s ∷ rest

-- `v.active[ip]`
abbrev pub is_active : Vserver → ℕ → Bool
is_active v ip = elim (lookup ip v.active) [ none ↦ false | some b ↦ b ]

-- The loop of `vserver.updateState`, with what `healthy` holds so far.
unfoldable pub vserver_health : Env → ℕ → Bool → List Service → Bool
vserver_health env ip healthy [] = healthy
vserver_health env ip healthy (s ∷ ss) = elim (s.vip == ip) [
  | false ↦ vserver_health env ip healthy ss
  | true ↦ elim (s.healthy) [
    | false ↦ elim (env.is_anycast ip) [ true ↦ false | false ↦ vserver_health env ip false ss ]
    | true ↦ elim (env.is_anycast ip) [ true ↦ vserver_health env ip true ss | false ↦ true ]
  ]
]

-- One round of the loop of `updateServices`, for an address that is active or not.
unfoldable pub update_service : Bool → ℕ → Service → Service × List Op
update_service ip_active ip s =
    if not (s.vip == ip)
    then (s, [])
    else if not ip_active
    then if s.active then service_down s else (s, [])
    else if not s.healthy && s.active
    then service_down s
    else if s.healthy && not s.active
    then service_up s
    else (s, [])

unfoldable pub update_service_list : Bool → ℕ → List Service → List Service × List Op
update_service_list ip_active ip [] = ([], [])
update_service_list ip_active ip (s ∷ ss) =
    let (s', ops) = update_service ip_active ip s in
    let (ss', more) = update_service_list ip_active ip ss in (s' ∷ ss', ops ++ more)

-- `vserver.updateServices`
unfoldable pub update_services : Vserver → ℕ → Vserver × List Op
update_services v ip =
    let (ss, ops) = update_service_list (is_active v ip) ip v.services in
    (record v { services = ss }, ops)

-- `vserver.up`
unfoldable pub vserver_up : Env → Vserver → ℕ → Vserver × List Op
vserver_up env v ip =
    let (v', ops) = update_services (record v { active = insert ip true v.active }) ip in
    if env.is_anycast ip
    then (
      record v' { lb_vservers = insert ip true v'.lb_vservers },
      ops
          ++ (add_vserver ip
              ∷ add_vip ip
              ∷ (if env.anycast_enabled then bgp_advertise ip ∷ [] else [])),
    )
    else (v', ops)

-- `vserver.down`
unfoldable pub vserver_down : Env → Vserver → ℕ → Vserver × List Op
vserver_down env v ip =
    let lb = if env.is_anycast ip then remove ip v.lb_vservers else v.lb_vservers in
    let (v', ops) =
      update_services (record v { active = remove ip v.active; lb_vservers = lb }) ip in
    (
      v',
      if env.is_anycast ip
          then (if env.anycast_enabled then bgp_withdraw ip ∷ [] else [])
            ++ (delete_vip ip ∷ delete_vserver ip ∷ ops)
          else ops,
    )

-- `vserver.updateState`
unfoldable pub vserver_update_state : Env → Vserver → ℕ → Vserver × List Op
vserver_update_state env v ip =
    let healthy = vserver_health env ip false v.services in
    if is_active v ip
    then if healthy then update_services v ip else vserver_down env v ip
    else if healthy
    then vserver_up env v ip
    else update_services v ip

abbrev pub with_service : Vserver → ServiceKey → Service × List Op → Vserver × List Op
with_service v key (s, ops) = (record v { services = replace key s v.services }, ops)

-- `service.updateState`, for the service `s` that stands under its key.
unfoldable pub update_found_service : Env → Vserver → ServiceKey → Service → Vserver × List Op
update_found_service env v key s =
    let healthy = service_health env s in
    let s' : Service = record s { healthy = healthy } in
    let v' : Vserver = record v { services = replace key s' v.services } in
    if (s.healthy && healthy) || (not s.healthy && not healthy)
    then with_service v key (update_dests s)
    else if is_active v s.vip && healthy
    then with_service v key (service_up s')
    else if is_active v s.vip || healthy
    then vserver_update_state env v' s.vip
    else (v', [])

unfoldable pub service_update_state : Env → Vserver → ServiceKey → Vserver × List Op
service_update_state env v key = elim (find key v.services) [
  | none ↦ (v, [])
  | some s ↦ update_found_service env v key s
]
