-- ===== src/Engine/Vserver/Service.antt =====
-- engine/vserver.go: destinations and services, up to what a service does by itself.
use seesaw.Base.{
  ℕ, Bool, true, false, not, ◌&&◌, ◌||◌, List, [], ◌∷◌, ◌++◌, count, leb, ◌==◌, if◌then◌else◌,
}
use seesaw.Engine.Vserver.Data.{
  Destination, Service, IpvsService, Op, add_service, delete_service, add_destination,
  delete_destination, Env,
}

-- `destination.up` and `destination.down`
unfoldable pub dest_up : IpvsService → Destination → Destination × List Op
dest_up svc d = (record d { active = true }, add_destination svc d.ipvs_dst ∷ [])

unfoldable pub dest_down : IpvsService → Destination → Destination × List Op
dest_down svc d = (record d { active = false }, delete_destination svc d.ipvs_dst ∷ [])

-- One round of the loop of `updateDests`, for a service that is active or not.
unfoldable pub update_dest : IpvsService → Bool → Destination → Destination × List Op
unfolding dest_up dest_down
update_dest svc service_active d =
    if not service_active
    then if d.active then dest_down svc d else (d, [])
    else if not d.healthy && d.active
    then dest_down svc d
    else if d.healthy && not d.active
    then dest_up svc d
    else (d, [])

unfoldable pub update_dest_list : IpvsService → Bool → List Destination → List Destination × List Op
update_dest_list svc service_active [] = ([], [])
update_dest_list svc service_active (d ∷ ds) =
    let (d', ops) = update_dest svc service_active d in
    let (ds', more) = update_dest_list svc service_active ds in (d' ∷ ds', ops ++ more)

-- `service.updateDests`
unfoldable pub update_dests : Service → Service × List Op
update_dests s =
    let (ds, ops) = update_dest_list s.ipvs_svc s.active s.dests in (record s { dests = ds }, ops)

-- `service.up`: the destinations come after the service.
unfoldable pub service_up : Service → Service × List Op
service_up s =
    let (s', ops) = update_dests (record s { active = true }) in (s', add_service s.ipvs_svc ∷ ops)

-- `service.down`: the destinations go before the service.
unfoldable pub service_down : Service → Service × List Op
service_down s =
    let (s', ops) = update_dests (record s { active = false }) in
    (s', ops ++ delete_service s.ipvs_svc ∷ [])

abbrev pub num_backends : List Destination → ℕ
num_backends = count (λ d. d.backend.in_service)

abbrev pub num_healthy_dests : List Destination → ℕ
num_healthy_dests = count (λ d. d.healthy)

-- `threshold == 0.0`, of a bit pattern.
abbrev pub is_zero_float : ℕ → Bool
is_zero_float t = t == 0 || t == 0x80000000

-- The health that `service.updateState` works out.
unfoldable pub service_health : Env → Service → Bool
service_health env s =
    let backends = num_backends s.dests in
    let healthy_dests = num_healthy_dests s.dests in
    let threshold = if s.healthy then s.ventry.low_watermark else s.ventry.high_watermark in
    if backends == 0 || healthy_dests == 0
    then false
    else if is_zero_float threshold
    then leb 1 healthy_dests
    else env.meets healthy_dests backends threshold
