-- ===== src/Engine/Vserver/Config/Checks.antt =====
-- engine/vserver.go: the checks that a configuration stands for, and what the healthcheck manager of
-- the engine is sent.
use seesaw.Base.{
  ℕ, suc, not, Option, none, some, List, [], ◌∷◌, ◌++◌, if◌then◌else◌, lookup, insert, lookup_key,
  insert_key,
}
use seesaw.Engine.Healthchecks.Keys.{CheckKey, Healthcheck, check_key_eq}
use seesaw.Engine.Healthchecks.Defs.{Checks, unknown_status}
use seesaw.Engine.Vserver.Data.{VserverEntry, ServiceKey, Service, Destination}
use seesaw.Engine.Vserver.State.{VserverCheck}
use seesaw.Engine.Vserver.Config.Data.{Config, CheckRef, Configured}

-- `newCheckKey`
unfoldable pub new_check_key : (vip backend_ip port proto : ℕ) → Healthcheck → CheckKey
new_check_key vip backend_ip port proto hc = record {
  vserver_ip = vip;
  backend_ip = backend_ip;
  service_port = port;
  service_proto = proto;
  mode = hc.mode;
  type = hc.type;
  port = hc.port;
  name = hc.name;
}

-- The checks made so far, by their numbers, the map from keys to them, and the next number.
pub record Expansion : Type 0 where
  pub heap : List (ℕ × VserverCheck)
  pub refs : List (CheckKey × CheckRef)
  pub next : ℕ

-- `newCheck`, and the write into the map of the checks.
unfoldable pub new_check : Expansion → CheckKey → Healthcheck → Expansion × ℕ
new_check x key hc = (
  record {
    heap = insert x.next (record { status = unknown_status; dests = [] }) x.heap;
    refs = insert_key key (record { id = x.next; healthcheck = hc }) x.refs;
    next = suc x.next;
  },
  x.next,
)

-- A vserver-level check, which may be there already.
unfoldable pub shared_check : Expansion → CheckKey → Healthcheck → Expansion × ℕ
unfolding new_check
shared_check x key hc = elim (lookup_key key x.refs) [
  | none ↦ new_check x key hc
  | some ref ↦ (x, ref.id)
]

-- `c.dests = append(c.dests, dest)`
unfoldable pub add_dest : Expansion → ℕ → ServiceKey × ℕ → Expansion
add_dest x id r = elim (lookup id x.heap) [
  | none ↦ x
  | some c ↦ record x { heap = insert id (record c { dests = c.dests ++ r ∷ [] }) x.heap }
]

-- The loop over `v.config.Healthchecks`, and the numbers of the checks that it appends.
unfoldable pub expand_shared : Service → ℕ → List Healthcheck → Expansion → Expansion × List ℕ
unfolding shared_check add_dest new_check_key
expand_shared svc ip [] x = (x, [])
expand_shared svc ip (hc ∷ hcs) x =
    let (y, id) = shared_check x (new_check_key svc.vip ip 0 0 hc) hc in
    let (z, ids) = expand_shared svc ip hcs (add_dest y id (svc.key, ip)) in (z, id ∷ ids)

-- The loop over the healthchecks of an entry, for its port and protocol.
unfoldable pub expand_own :
    Service → (ip port proto : ℕ) → List Healthcheck → Expansion → Expansion × List ℕ
unfolding new_check add_dest new_check_key
expand_own svc ip port proto [] x = (x, [])
expand_own svc ip port proto (hc ∷ hcs) x =
    let (y, id) = new_check x (new_check_key svc.vip ip port proto hc) hc in
    let (z, ids) = expand_own svc ip port proto hcs (add_dest y id (svc.key, ip)) in (z, id ∷ ids)

unfoldable pub expand_own_entries :
    Service → ℕ → List (ℕ × VserverEntry) → Expansion → Expansion × List ℕ
unfolding expand_own
expand_own_entries svc ip [] x = (x, [])
expand_own_entries svc ip ((k, ve) ∷ rest) x =
    let (y, ids) = expand_own svc ip ve.port ve.proto ve.healthchecks x in
    let (z, more) = expand_own_entries svc ip rest y in (z, ids ++ more)

-- The ventry-level healthchecks.
unfoldable pub expand_ventry : Config → Service → ℕ → Expansion → Expansion × List ℕ
unfolding expand_own_entries
expand_ventry config svc ip x =
    if config.use_fwm
    then expand_own_entries svc ip config.entries x
    else expand_own svc ip svc.key.port svc.key.proto svc.ventry.healthchecks x

-- One round over a destination.
unfoldable pub expand_dest_checks :
    Config → Service → Destination → Expansion → Expansion × Destination
unfolding expand_shared expand_ventry
expand_dest_checks config svc d x =
    if not d.backend.enabled
    then (x, record d { checks = [] })
    else (let (y, ids) = expand_shared svc d.ip config.healthchecks x in
        let (z, more) = expand_ventry config svc d.ip y in (z, record d { checks = ids ++ more }))

unfoldable pub expand_dests_checks :
    Config → Service → List Destination → Expansion → Expansion × List Destination
unfolding expand_dest_checks
expand_dests_checks config svc [] x = (x, [])
expand_dests_checks config svc (d ∷ ds) x =
    let (y, d') = expand_dest_checks config svc d x in
    let (z, ds') = expand_dests_checks config svc ds y in (z, d' ∷ ds')

unfoldable pub expand_services_checks : Config → List Service → Expansion → Expansion × List Service
unfolding expand_dests_checks
expand_services_checks config [] x = (x, [])
expand_services_checks config (s ∷ ss) x =
    let (y, ds) = expand_dests_checks config s s.dests x in
    let (z, ss') = expand_services_checks config ss y in (z, record s { dests = ds } ∷ ss')

-- `expandChecks`, with the result written to `v.checks`.
unfoldable pub expand_checks : Config → Configured → Configured
unfolding expand_services_checks
expand_checks config c =
    let (x, ss) =
      expand_services_checks config c.vserver.services
        (record { heap = []; refs = []; next = 0 }) in
    record c { vserver = record c.vserver { services = ss; checks = x.heap }; check_refs = x.refs }

-- The loop of `configUpdate` that copies the old status of a check to the new one of its key.
unfoldable pub carry_status :
    List (ℕ × VserverCheck)
    → List (CheckKey × CheckRef)
    → List (CheckKey × CheckRef)
    → List (ℕ × VserverCheck)
    → List (ℕ × VserverCheck)
carry_status old_heap [] refs heap = heap
carry_status old_heap ((key, old) ∷ rest) refs heap =
    carry_status old_heap rest refs (elim (lookup_key key refs) [
      | none ↦ heap
      | some ref ↦ elim (lookup old.id old_heap) [
        | none ↦ heap
        | some was ↦ elim (lookup ref.id heap) [
          | none ↦ heap
          | some now ↦ insert ref.id (record now { status = was.status }) heap
        ]
      ]
    ])

-- `healthchecks`; `none` for the checks is nil.
abbrev pub checks_of : ℕ → List (CheckKey × CheckRef) → Checks
checks_of name [] = []
checks_of name ((key, ref) ∷ rest) =
    (key, record { key = key; vserver = name; healthcheck = ref.healthcheck }) ∷ checks_of name rest

unfoldable pub healthchecks : Config → Configured → ℕ × Option Checks
healthchecks config c =
    (config.name, if c.vserver.enabled then some (checks_of config.name c.check_refs) else none)
