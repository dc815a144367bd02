-- ===== src/Engine/Vserver/Config/Expand.antt =====
-- engine/vserver.go: the services and destinations that a configuration stands for.
use seesaw.Base.{ℕ, false, Option, none, some, List, [], ◌∷◌, ◌==◌, if◌then◌else◌}
use seesaw.Engine.Marks.Defs.{get}
use seesaw.Engine.Vserver.Data.{
  Af, ipv4, ipv6, Backend, VserverEntry, ServiceKey, Service, Destination, Env, ipvs_service,
  ipvs_destination,
}
use seesaw.Engine.Vserver.State.{same_key}
use seesaw.Engine.Vserver.Config.Data.{Vip, anycast_vip, unicast_vip, Config, Configured}

-- `findVIP`
unfoldable pub find_vip : Env → List Vip → ℕ → Vip
find_vip env [] ip = record {
  ip = ip;
  type = if env.is_anycast ip then anycast_vip else unicast_vip;
}
find_vip env (vip ∷ vips) ip = if vip.ip == ip then vip else find_vip env vips ip

abbrev pub host_address : Config → Af → Option ℕ
host_address config ipv4 = config.ipv4_addr
host_address config ipv6 = config.ipv6_addr

abbrev pub backend_address : Backend → Af → Option ℕ
backend_address backend ipv4 = backend.ipv4_addr
backend_address backend ipv6 = backend.ipv6_addr

-- A service as it is expanded: down, and not known to be healthy.
unfoldable pub new_service : ServiceKey → ℕ → VserverEntry → Service
unfolding ipvs_service
new_service key vip ventry = record {
  key = key;
  vip = vip;
  ventry = ventry;
  ipvs_svc = ipvs_service key vip ventry;
  dests = [];
  healthy = false;
  active = false;
}

-- `svcs[svc.serviceKey] = svc`
abbrev pub put_service : Service → List Service → List Service
put_service s [] = s ∷ []
put_service s (t ∷ ts) = if same_key t.key s.key then s ∷ ts else t ∷ put_service s ts

abbrev pub entry_key : Af → VserverEntry → ServiceKey
entry_key af entry = record { af = af; fwm = 0; proto = entry.proto; port = entry.port }

abbrev pub fwm_key : Af → ℕ → ServiceKey
fwm_key af mark = record { af = af; fwm = mark; proto = 0; port = 0 }

unfoldable pub expand_entries :
    Env → Config → Af → ℕ → List (ℕ × VserverEntry) → List Service → List Service
unfolding new_service
expand_entries env config af ip [] svcs = svcs
expand_entries env config af ip ((k, entry) ∷ rest) svcs =
    expand_entries env config af ip rest
      (put_service (new_service (entry_key af entry) (find_vip env config.vips ip).ip entry) svcs)

unfoldable pub expand_family : Env → Config → Af → List Service → List Service
unfolding expand_entries
expand_family env config af svcs = elim (host_address config af) [
  | none ↦ svcs
  | some ip ↦ expand_entries env config af ip config.entries svcs
]

abbrev pub fwm_of : Configured → Af → ℕ
fwm_of c ipv4 = c.fwm_ipv4
fwm_of c ipv6 = c.fwm_ipv6

abbrev pub set_fwm : Configured → Af → ℕ → Configured
set_fwm c ipv4 mark = record c { fwm_ipv4 = mark }
set_fwm c ipv6 mark = record c { fwm_ipv6 = mark }

-- The mark of a family, which is allocated when there is none.
unfoldable pub ensure_fwm : Configured → Af → Option Configured
ensure_fwm c af =
    if fwm_of c af == 0
    then elim (get c.fwm_alloc) [
      | none ↦ none
      | some (mark, ma) ↦ some (set_fwm (record c { fwm_alloc = ma }) af mark)
    ]
    else some c

-- One round of `expandFWMServices`; without an entry `ipvsService` reads a nil pointer.
unfoldable pub expand_fwm_family :
    Env → Config → Af → Configured × List Service → Option (Configured × List Service)
unfolding ensure_fwm new_service
expand_fwm_family env config af (c, svcs) = elim (host_address config af) [
  | none ↦ some (c, svcs)
  | some ip ↦ elim (ensure_fwm c af) [
    | none ↦ none
    | some c' ↦ elim (config.entries) [
      | [] ↦ none
      | (k, entry) ∷ rest ↦ some (
        c',
        put_service (new_service (fwm_key af (fwm_of c' af)) (find_vip env config.vips ip).ip entry)
            svcs,
      )
    ]
  ]
]

-- `expandServices`
unfoldable pub expand_services : Env → Config → Configured → Option (Configured × List Service)
unfolding expand_family expand_fwm_family
expand_services env config c =
    if config.use_fwm
    then elim (expand_fwm_family env config ipv4 (c, [])) [
      | none ↦ none
      | some (c', svcs) ↦ expand_fwm_family env config ipv6 (c', svcs)
    ]
    else some (c, expand_family env config ipv6 (expand_family env config ipv4 []))

-- `dsts[dst.destinationKey] = dst`
abbrev pub put_dest : Destination → List Destination → List Destination
put_dest d [] = d ∷ []
put_dest d (e ∷ es) = if e.ip == d.ip then d ∷ es else e ∷ put_dest d es

unfoldable pub new_dest : Service → Backend → ℕ → Destination
unfolding ipvs_destination
new_dest svc backend ip = record {
  ip = ip;
  backend = backend;
  ipvs_dst = ipvs_destination svc.key svc.ventry ip backend.weight;
  weight = backend.weight;
  checks = [];
  healthy = false;
  active = false;
}

-- `expandDests`
unfoldable pub expand_dests : Service → List Backend → List Destination → List Destination
unfolding new_dest
expand_dests svc [] dsts = dsts
expand_dests svc (backend ∷ rest) dsts =
    expand_dests svc rest (elim (backend_address backend svc.key.af) [
      | none ↦ dsts
      | some ip ↦ put_dest (new_dest svc backend ip) dsts
    ])
