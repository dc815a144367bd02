-- ===== src/Engine/Vserver/Config/Dests.antt =====
-- engine/vserver.go: how `configUpdate` adds, updates and deletes destinations.
use seesaw.Base.{
  ℕ, Bool, false, not, ◌&&◌, ◌||◌, Option, none, some, List, [], ◌∷◌, ◌++◌, ◌==◌, if◌then◌else◌,
  map, is_some,
}
use seesaw.Engine.Healthchecks.Keys.{check_key_eq}
use seesaw.Engine.Vserver.Data.{ServiceKey, Service, Destination, Op, update_destination, Env}
use seesaw.Engine.Vserver.State.{Vserver, same_key, find, replace, service_update_state}
use seesaw.Engine.Vserver.Events.{find_dest, with_dest}
use seesaw.Engine.Vserver.Config.Data.{Config, Configured, apply}
use seesaw.Engine.Vserver.Config.Expand.{expand_dests}
use seesaw.Engine.Vserver.Config.Equal.{dest_ipvs_equal}
use seesaw.Engine.Vserver.Config.Services.{delete_service}

-- `destination.update`
unfoldable pub update_dest_to :
    Env → Vserver → Service → Destination → Destination → Vserver × List Op
unfolding dest_ipvs_equal
update_dest_to env v s d dest =
    let d' : Destination = record dest { active = d.active; healthy = d.healthy } in
    let v' : Vserver = record v { services = replace s.key (with_dest s d.ip d') v.services } in
    if not d.healthy
    then (v', [])
    else if not dest.backend.enabled
    then service_update_state env
        (record v {
          services = replace s.key (with_dest s d.ip (record d' { healthy = false })) v.services;
        })
        s.key
    else if d.active && not (dest_ipvs_equal d.ipvs_dst dest.ipvs_dst)
    then (v', update_destination s.ipvs_svc dest.ipvs_dst ∷ [])
    else (v', [])

abbrev pub has_service_key : ServiceKey → List ServiceKey → Bool
has_service_key key [] = false
has_service_key key (k ∷ ks) = same_key k key || has_service_key key ks

-- The write of a new destination into the map of a service, which may be nil.
unfoldable pub add_new_dest : Configured → Service → Destination → Option Configured
add_new_dest c s d =
    if has_service_key s.key c.nil_dests
    then none
    else some (record c {
      vserver = record c.vserver {
        services = replace s.key (record s { dests = s.dests ++ d ∷ [] }) c.vserver.services;
      };
    })

-- One round over the new destinations of a service.
unfoldable pub add_or_update_dest : Env → Configured → ServiceKey → Destination → Option Configured
unfolding update_dest_to add_new_dest
add_or_update_dest env c key d = elim (find key c.vserver.services) [
  | none ↦ some c
  | some s ↦ elim (find_dest d.ip s.dests) [
    | some old ↦ some (apply c (update_dest_to env c.vserver s old d))
    | none ↦ add_new_dest c s d
  ]
]

unfoldable pub add_or_update_dests :
    Env → Configured → ServiceKey → List Destination → Option Configured
unfolding add_or_update_dest
add_or_update_dests env c key [] = some c
add_or_update_dests env c key (d ∷ ds) = elim (add_or_update_dest env c key d) [
  | none ↦ none
  | some c' ↦ add_or_update_dests env c' key ds
]

abbrev pub remove_dest : ℕ → List Destination → List Destination
remove_dest ip [] = []
remove_dest ip (d ∷ ds) = let rest = remove_dest ip ds in if d.ip == ip then rest else d ∷ rest

abbrev pub without_dest : ServiceKey → ℕ → Vserver → Vserver
without_dest key ip v = elim (find key v.services) [
  | none ↦ v
  | some s ↦ record v {
    services = replace key (record s { dests = remove_dest ip s.dests }) v.services;
  }
]

-- One round over the destinations that a service has, for one that is configured no more.
unfoldable pub delete_dest : Env → Vserver → Service → Destination → Vserver × List Op
delete_dest env v s d =
    let (v', ops) =
      if d.active
      then service_update_state env
          (record v {
            services = replace s.key (with_dest s d.ip (record d { healthy = false })) v.services;
          })
          s.key
      else (v, []) in
    (without_dest s.key d.ip v', ops)

unfoldable pub delete_dests : Env → Configured → ServiceKey → List Destination → List ℕ → Configured
unfolding delete_dest
delete_dests env c key wanted [] = c
delete_dests env c key wanted (ip ∷ ips) =
    delete_dests env
      (if is_some (find_dest ip wanted) then c else elim (find key c.vserver.services) [
        | none ↦ c
        | some s ↦ elim (find_dest ip s.dests) [
          | none ↦ c
          | some d ↦ apply c (delete_dest env c.vserver s d)
        ]
      ])
      key wanted ips

abbrev pub dests_under : ServiceKey → List Service → List ℕ
dests_under key ss = elim (find key ss) [
  | none ↦ []
  | some s ↦ map (λ (d : Destination). d.ip) s.dests
]

-- One round of the second loop of `configUpdate`.
unfoldable pub update_dests_under :
    Env → Config → List Service → Configured → ServiceKey → Option Configured
unfolding add_or_update_dests delete_dests
update_dests_under env config wanted c key = elim (find key c.vserver.services) [
  | none ↦ some c
  | some s ↦
      if not (is_some (find key wanted))
      then some (apply c (delete_service env c.vserver s))
      else (let dests = expand_dests s config.backends [] in
          elim (add_or_update_dests env c key dests) [
            | none ↦ none
            | some c' ↦ some (delete_dests env c' key dests (dests_under key c'.vserver.services))
          ])
]

unfoldable pub update_all_dests :
    Env → Config → List Service → Configured → List ServiceKey → Option Configured
unfolding update_dests_under
update_all_dests env config wanted c [] = some c
update_all_dests env config wanted c (key ∷ keys) =
    elim (update_dests_under env config wanted c key) [
      | none ↦ none
      | some c' ↦ update_all_dests env config wanted c' keys
    ]
