-- ===== src/Engine/Vserver/Config/Pointers.antt =====
-- engine/vserver.go: every destination hears of all the checks that it is configured with.
use seesaw.Base.{
  ℕ, suc, ◌≡◌, refl, ap, List, [], ◌∷◌, All, All-imp, arith, Bool-cases, inl, inr, if◌then◌else◌,
  length, length-append, ◌+◌,
}
use seesaw.Engine.Healthchecks.Keys.{Healthcheck, check_key_eq}
use seesaw.Engine.Vserver.Data.{VserverEntry, Service, Destination}
use seesaw.Engine.Vserver.State.{VserverCheck}
use seesaw.Engine.Vserver.Config.Data.{Config, Configured}
use seesaw.Engine.Vserver.Config.Checks.{
  Expansion, expand_shared, expand_own, expand_own_entries, expand_ventry, expand_dest_checks,
  expand_dests_checks, expand_services_checks, expand_checks,
}
use seesaw.Engine.Vserver.Config.Links.{
  PointsTo, IsSound, Grows, Grows-trans, Expands-append, expand_shared-Expands,
  expand_ventry-Expands,
}

-- How many healthchecks a configuration has for the destinations of a service.
abbrev pub num_entry_checks : List (ℕ × VserverEntry) → ℕ
num_entry_checks [] = 0
num_entry_checks ((k, ve) ∷ rest) = length ve.healthchecks + num_entry_checks rest

abbrev pub num_checks : Config → VserverEntry → Destination → ℕ
num_checks config ventry d =
    if d.backend.enabled
    then length config.healthchecks
      + (if config.use_fwm then num_entry_checks config.entries else length ventry.healthchecks)
    else 0

-- A destination has a check for each of its healthchecks, and each of these points to it.
abbrev pub IsLinked : Config → List (ℕ × VserverCheck) → Service → Destination → Type 0
IsLinked config heap s d =
    (length d.checks ≡ num_checks config s.ventry d) × All (PointsTo heap (s.key, d.ip)) d.checks

length-expand_shared :
    (svc : Service) (ip : ℕ) (hcs : List Healthcheck) (x : Expansion)
    → length (expand_shared svc ip hcs x).1 ≡ length hcs
unfolding expand_shared
length-expand_shared svc ip [] x = refl
length-expand_shared svc ip (hc ∷ hcs) x = ap suc (length-expand_shared svc ip hcs _)

length-expand_own :
    (svc : Service) (ip port proto : ℕ) (hcs : List Healthcheck) (x : Expansion)
    → length (expand_own svc ip port proto hcs x).1 ≡ length hcs
unfolding expand_own
length-expand_own svc ip port proto [] x = refl
length-expand_own svc ip port proto (hc ∷ hcs) x =
    ap suc (length-expand_own svc ip port proto hcs _)

length-expand_own_entries :
    (svc : Service) (ip : ℕ) (entries : List (ℕ × VserverEntry)) (x : Expansion)
    → length (expand_own_entries svc ip entries x).1 ≡ num_entry_checks entries
unfolding expand_own_entries
length-expand_own_entries svc ip [] x = refl
length-expand_own_entries svc ip ((k, ve) ∷ rest) x =
    let (y, ids) = expand_own svc ip ve.port ve.proto ve.healthchecks x in
    omega (
      arith,
      length-append ids (expand_own_entries svc ip rest y).1,
      length-expand_own svc ip ve.port ve.proto ve.healthchecks x,
      length-expand_own_entries svc ip rest y,
    )

length-expand_ventry :
    (config : Config) (svc : Service) (ip : ℕ) (x : Expansion)
    → length (expand_ventry config svc ip x).1
      ≡ (if config.use_fwm then num_entry_checks config.entries else length svc.ventry.healthchecks)
unfolding expand_ventry
length-expand_ventry config svc ip x = elim (Bool-cases config.use_fwm) [
  | inl fwm ↦ rw (expand_ventry, fwm) (length-expand_own_entries svc ip config.entries x)
  | inr no_fwm ↦
      rw (expand_ventry, no_fwm)
        (length-expand_own svc ip svc.key.port svc.key.proto svc.ventry.healthchecks x)
]

expand_dest_checks-IsLinked :
    (config : Config) (svc : Service) (d : Destination) (x : Expansion)
    → IsSound x
    → let p = expand_dest_checks config svc d x in Grows x p.0 × IsLinked config p.0.heap svc p.1
unfolding expand_dest_checks
expand_dest_checks-IsLinked config svc d x s = elim (Bool-cases d.backend.enabled) [
  | inr off ↦ rw (expand_dest_checks, off) (((s, λ id r p. p), (refl, tt)))
  | inl on ↦
      let shared = expand_shared-Expands svc d.ip config.healthchecks x s in
      let (y, ids) = expand_shared svc d.ip config.healthchecks x in
      let own = expand_ventry-Expands config svc d.ip y shared.0.0 in
      let both =
        Expands-append (svc.key, d.ip) x y ids (expand_ventry config svc d.ip y) shared own in
      rw (expand_dest_checks, on)
        ((
          both.0,
          (
            ground (
              arith,
              length-append ids (expand_ventry config svc d.ip y).1,
              length-expand_shared svc d.ip config.healthchecks x,
              length-expand_ventry config svc d.ip y,
            ),
            both.1,
          ),
        ))
]

IsLinked-Grows :
    (config : Config) (svc : Service) (x y : Expansion) (ds : List Destination)
    → Grows x y
    → All (IsLinked config x.heap svc) ds
    → All (IsLinked config y.heap svc) ds
IsLinked-Grows config svc x y ds g =
    All-imp (λ d l. (l.0, All-imp (λ id. g.1 id (svc.key, d.ip)) d.checks l.1)) ds

expand_dests_checks-IsLinked :
    (config : Config) (svc : Service) (ds : List Destination) (x : Expansion)
    → IsSound x
    → let p = expand_dests_checks config svc ds x in
      Grows x p.0 × All (IsLinked config p.0.heap svc) p.1
unfolding expand_dests_checks
expand_dests_checks-IsLinked config svc [] x s = ((s, λ id r p. p), tt)
expand_dests_checks-IsLinked config svc (d ∷ ds) x s =
    let one = expand_dest_checks-IsLinked config svc d x s in
    let (y, d') = expand_dest_checks config svc d x in
    let rest = expand_dests_checks-IsLinked config svc ds y one.0.0 in
    let z = (expand_dests_checks config svc ds y).0 in
    (
      Grows-trans x y z one.0 rest.0,
      ((IsLinked-Grows config svc y z (d' ∷ []) rest.0 (one.1, tt)).0, rest.1),
    )

expand_services_checks-IsLinked :
    (config : Config) (ss : List Service) (x : Expansion)
    → IsSound x
    → let p = expand_services_checks config ss x in
      Grows x p.0 × All (λ svc. All (IsLinked config p.0.heap svc) svc.dests) p.1
unfolding expand_services_checks
expand_services_checks-IsLinked config [] x s = ((s, λ id r p. p), tt)
expand_services_checks-IsLinked config (svc ∷ ss) x s =
    let one = expand_dests_checks-IsLinked config svc svc.dests x s in
    let (y, ds) = expand_dests_checks config svc svc.dests x in
    let rest = expand_services_checks-IsLinked config ss y one.0.0 in
    let z = (expand_services_checks config ss y).0 in
    (Grows-trans x y z one.0 rest.0, (IsLinked-Grows config svc y z ds rest.0 one.1, rest.1))

-- After `expandChecks`, whatever services, destinations and configuration a vserver has: a destination
-- whose backend is enabled has exactly one check for each healthcheck of the vserver and of its entry
-- (of all entries, with firewall marks), one whose backend is disabled has none, and each check of a
-- destination points back to that destination, so that a change of its status reaches it.
pub expand_checks-IsLinked :
    (config : Config) (c : Configured)
    → let v = (expand_checks config c).vserver in
      All (λ svc. All (IsLinked config v.checks svc) svc.dests) v.services
unfolding expand_checks
expand_checks-IsLinked config c =
    let start : Expansion = record { heap = []; refs = []; next = 0 } in
    (expand_services_checks-IsLinked config c.vserver.services start
      ((λ id known. absurd (ground arith)), (λ key ref found. absurd (ground arith)))).1
