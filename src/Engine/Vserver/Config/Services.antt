-- ===== src/Engine/Vserver/Config/Services.antt =====
-- engine/vserver.go: how `configUpdate` adds, updates and deletes services.
use seesaw.Base.{false, not, ◌&&◌, none, some, List, [], ◌∷◌, ◌==◌, if◌then◌else◌}
use seesaw.Engine.Healthchecks.Keys.{check_key_eq}
use seesaw.Engine.Vserver.Data.{ServiceKey, Service, Op, update_service, Env}
use seesaw.Engine.Vserver.State.{Vserver, same_key, find, replace, vserver_update_state}
use seesaw.Engine.Vserver.Config.Data.{Configured, apply}
use seesaw.Engine.Vserver.Config.Expand.{put_service}
use seesaw.Engine.Vserver.Config.Equal.{service_ipvs_equal}

-- `service.update`
unfoldable pub update_to : Service → Service → Service × List Op
unfolding service_ipvs_equal
update_to s svc =
    let s' : Service = record svc { active = s.active; healthy = s.healthy; dests = s.dests } in
    (s', if s.active && not (service_ipvs_equal s svc) then update_service s'.ipvs_svc ∷ [] else [])

abbrev pub remove_service : ServiceKey → List Service → List Service
remove_service key [] = []
remove_service key (s ∷ ss) =
    let rest = remove_service key ss in if same_key s.key key then rest else s ∷ rest

-- `deleteService` until the service leaves the map, and all of it.
unfoldable pub take_down : Env → Vserver → Service → Vserver × List Op
take_down env v s =
    if s.active
    then vserver_update_state env
        (record v { services = replace s.key (record s { healthy = false }) v.services }) s.vip
    else (v, [])

unfoldable pub delete_service : Env → Vserver → Service → Vserver × List Op
unfolding take_down
delete_service env v s =
    let (v', ops) = take_down env v s in
    (record v' { services = remove_service s.key v'.services }, ops)

abbrev pub nil_dests_with : ServiceKey → Configured → List ServiceKey
nil_dests_with key c = elim (c.config) [
  | none ↦ c.nil_dests
  | some config ↦ if config.use_fwm then key ∷ c.nil_dests else c.nil_dests
]

-- A service that is new to the vserver. Only the services without a mark come with a map of
-- destinations.
unfoldable pub add_service : Env → Configured → Service → Configured
add_service env c svc =
    let v : Vserver = record c.vserver { services = put_service svc c.vserver.services } in
    apply (record c { nil_dests = nil_dests_with svc.key c }) (vserver_update_state env v svc.vip)

-- One round of the first loop of `configUpdate`.
unfoldable pub add_or_update : Env → Configured → Service → Configured
unfolding update_to delete_service add_service
add_or_update env c svc = elim (find svc.key c.vserver.services) [
  | none ↦ add_service env c svc
  | some s ↦
      if s.vip == svc.vip
      then (let (s', ops) = update_to s svc in
          apply c (record c.vserver { services = replace s.key s' c.vserver.services }, ops))
      else add_service env (apply c (delete_service env c.vserver s)) svc
]

unfoldable pub add_or_update_all : Env → Configured → List Service → Configured
unfolding add_or_update
add_or_update_all env c [] = c
add_or_update_all env c (svc ∷ svcs) = add_or_update_all env (add_or_update env c svc) svcs
