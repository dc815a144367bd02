-- ===== src/Engine/Vserver/Config/Start.antt =====
-- engine/vserver.go: what `configInit` leaves in a vserver.
use mathlib.Core.Option as Option
use seesaw.Base.{
  List-cases, ℕ, ◌≡◌, refl, ◌∙◌, subst, false, ◌||◌, some, List, [], ◌∷◌, All, arith, ◌==◌,
  Bool-cases, Option-cases, inl, inr,
}
use seesaw.Engine.Vserver.Data.{
  Af, ipv4, ipv6, Backend, VserverEntry, ServiceKey, Service, Destination, Env,
}
use seesaw.Engine.Vserver.State.{same_key}
use seesaw.Engine.Vserver.Histories.{IsFresh}
use seesaw.Engine.Healthchecks.Keys.{check_key_eq}
use seesaw.Engine.Vserver.Config.Data.{Vip, anycast_vip, same_vip_type, Config, Configured}
use seesaw.Engine.Vserver.Config.Expand.{
  find_vip, new_service, put_service, expand_entries, expand_family, expand_fwm_family, ensure_fwm,
  expand_services, put_dest, new_dest, entry_key, fwm_key, fwm_of, expand_dests, host_address,
  backend_address,
}
use seesaw.Engine.Vserver.Config.Checks.{
  Expansion, expand_dest_checks, expand_dests_checks, expand_services_checks,
}
use seesaw.Engine.Vserver.Config.Vips.{configure_vip, configure_vips, has_vip}
use seesaw.Engine.Vserver.Config.Update.{with_dests}

abbrev pub AreDown : List Destination → Type 0
AreDown = All (λ d. d.active ≡ false)

abbrev pub IsDown : Service → Type 0
IsDown s = (s.active ≡ false) × (s.healthy ≡ false) × AreDown s.dests

put_service-IsDown :
    (s : Service) (ss : List Service) → IsDown s → All IsDown ss → All IsDown (put_service s ss)
put_service-IsDown s [] h hs = (h, tt)
put_service-IsDown s (t ∷ ts) h hs = elim (Bool-cases (same_key t.key s.key)) [
  | inl same ↦ rw (same) ((h, hs.1))
  | inr other ↦ rw (other) ((hs.0, put_service-IsDown s ts h hs.1))
]

new_service-IsDown :
    (key : ServiceKey) (vip : ℕ) (entry : VserverEntry) → IsDown (new_service key vip entry)
unfolding new_service
new_service-IsDown key vip entry = (refl, refl, tt)

expand_entries-IsDown :
    (env : Env) (config : Config) (af : Af) (ip : ℕ) (entries : List (ℕ × VserverEntry))
    (svcs : List Service)
    → All IsDown svcs
    → All IsDown (expand_entries env config af ip entries svcs)
unfolding expand_entries
expand_entries-IsDown env config af ip [] svcs h = h
expand_entries-IsDown env config af ip ((k, entry) ∷ rest) svcs h =
    expand_entries-IsDown env config af ip rest _ (
      put_service-IsDown (new_service (entry_key af entry) (find_vip env config.vips ip).ip entry)
        svcs (new_service-IsDown (entry_key af entry) (find_vip env config.vips ip).ip entry) h)

expand_family-IsDown :
    (env : Env) (config : Config) (af : Af) (svcs : List Service)
    → All IsDown svcs
    → All IsDown (expand_family env config af svcs)
unfolding expand_family
expand_family-IsDown env config af svcs h = elim (Option-cases (host_address config af)) [
  | inl missing ↦ rw (expand_family, missing) h
  | inr (ip, there) ↦
      rw (expand_family, there) (expand_entries-IsDown env config af ip config.entries svcs h)
]

-- What an expansion keeps of a vserver.
abbrev pub Keeps : Configured → Configured × List Service → Type 0
Keeps c (c', svcs) = (c'.vserver ≡ c.vserver) × All IsDown svcs

ensure_fwm-vserver :
    (c c' : Configured) (af : Af) → ensure_fwm c af ≡ some c' → c'.vserver ≡ c.vserver
unfolding ensure_fwm
ensure_fwm-vserver c c' ipv4 e = ground arith
ensure_fwm-vserver c c' ipv6 e = ground arith

expand_fwm_family-Keeps :
    (env : Env) (config : Config) (af : Af) (c : Configured) (svcs : List Service)
    (p : Configured × List Service)
    → All IsDown svcs
    → expand_fwm_family env config af (c, svcs) ≡ some p
    → Keeps c p
unfolding expand_fwm_family
expand_fwm_family-Keeps env config af c svcs p h e = elim (Option-cases (host_address config af)) [
  | inl missing ↦ subst (Keeps c) (Option.some-injective (c, svcs) p (ground arith)) (refl, h)
  | inr (ip, there) ↦ elim (Option-cases (ensure_fwm c af)) [
    | inl exhausted ↦ absurd (ground arith)
    | inr (c', ensured) ↦ elim (List-cases config.entries) [
      | inl no_entry ↦ absurd (ground arith)
      | inr ((k, entry), rest, entries) ↦
          let s = new_service (fwm_key af (fwm_of c' af)) (find_vip env config.vips ip).ip entry in
          subst (Keeps c) (Option.some-injective (c', put_service s svcs) p (ground arith)) (
            ensure_fwm-vserver c c' af ensured,
            put_service-IsDown s svcs
                (new_service-IsDown (fwm_key af (fwm_of c' af)) (find_vip env config.vips ip).ip
                  entry)
                h,
          )
    ]
  ]
]

pub expand_services-Keeps :
    (env : Env) (config : Config) (c : Configured) (p : Configured × List Service)
    → expand_services env config c ≡ some p
    → Keeps c p
unfolding expand_services
expand_services-Keeps env config c p e = elim (Bool-cases config.use_fwm) [
  | inl with_fwm ↦ elim (Option-cases (expand_fwm_family env config ipv4 (c, []))) [
    | inl stopped ↦ absurd (ground arith)
    | inr ((c', svcs), went) ↦
        let one = expand_fwm_family-Keeps env config ipv4 c [] (c', svcs) tt went in
        let two = expand_fwm_family-Keeps env config ipv6 c' svcs p one.1 (ground arith) in
        (two.0 ∙ one.0, two.1)
  ]
  | inr no_fwm ↦
      let svcs = expand_family env config ipv6 (expand_family env config ipv4 []) in
      subst (Keeps c) (Option.some-injective (c, svcs) p (ground arith))
        (refl, expand_family-IsDown env config ipv6 _ (expand_family-IsDown env config ipv4 [] tt))
]

expand_dest_checks-active :
    (config : Config) (svc : Service) (d : Destination) (x : Expansion)
    → (expand_dest_checks config svc d x).1.active ≡ d.active
unfolding expand_dest_checks
expand_dest_checks-active config svc d x = ground arith

expand_dests_checks-AreDown :
    (config : Config) (svc : Service) (ds : List Destination) (x : Expansion)
    → AreDown ds
    → AreDown (expand_dests_checks config svc ds x).1
unfolding expand_dests_checks
expand_dests_checks-AreDown config svc [] x h = tt
expand_dests_checks-AreDown config svc (d ∷ ds) x h = (
  expand_dest_checks-active config svc d x ∙ h.0,
  expand_dests_checks-AreDown config svc ds _ h.1,
)

pub expand_services_checks-IsDown :
    (config : Config) (ss : List Service) (x : Expansion)
    → All IsDown ss
    → All IsDown (expand_services_checks config ss x).1
unfolding expand_services_checks
expand_services_checks-IsDown config [] x h = tt
expand_services_checks-IsDown config (s ∷ ss) x h = (
  (h.0.0, h.0.1, expand_dests_checks-AreDown config s s.dests x h.0.2),
  expand_services_checks-IsDown config ss _ h.1,
)

put_dest-AreDown :
    (d : Destination) (ds : List Destination)
    → d.active ≡ false
    → AreDown ds
    → AreDown (put_dest d ds)
put_dest-AreDown d [] h hs = (h, tt)
put_dest-AreDown d (e ∷ es) h hs = elim (Bool-cases (e.ip == d.ip)) [
  | inl same ↦ rw (same) ((h, hs.1))
  | inr other ↦ rw (other) ((hs.0, put_dest-AreDown d es h hs.1))
]

expand_dests-AreDown :
    (svc : Service) (backends : List Backend) (ds : List Destination)
    → AreDown ds
    → AreDown (expand_dests svc backends ds)
unfolding expand_dests new_dest
expand_dests-AreDown svc [] ds h = h
expand_dests-AreDown svc (b ∷ bs) ds h = elim (Option-cases (backend_address b svc.key.af)) [
  | inl missing ↦ rw (expand_dests, missing) (expand_dests-AreDown svc bs ds h)
  | inr (ip, there) ↦
      rw (expand_dests, there)
        (expand_dests-AreDown svc bs _ (put_dest-AreDown (new_dest svc b ip) ds refl h))
]

pub with_dests-IsDown :
    (config : Config) (ss : List Service) → All IsDown ss → All IsDown (with_dests config ss)
with_dests-IsDown config [] h = tt
with_dests-IsDown config (s ∷ ss) h =
    ((h.0.0, h.0.1, expand_dests-AreDown s config.backends [] tt), with_dests-IsDown config ss h.1)

configure_vip-IsFresh :
    (c : Configured) (vip : Vip) → IsFresh c.vserver → IsFresh (configure_vip c vip).vserver
unfolding configure_vip
configure_vip-IsFresh c vip f =
    elim (Bool-cases (has_vip vip c.vips || same_vip_type vip.type anycast_vip)) [
      | inl there ↦ rw (configure_vip, there) f
      | inr new ↦
          rw (configure_vip, new) (record { no_address = f.no_address; all_down = f.all_down })
    ]

pub configure_vips-IsFresh :
    (c : Configured) (vips : List Vip) → IsFresh c.vserver → IsFresh (configure_vips c vips).vserver
unfolding configure_vips
configure_vips-IsFresh c [] f = f
configure_vips-IsFresh c (vip ∷ vips) f =
    configure_vips-IsFresh (configure_vip c vip) vips (configure_vip-IsFresh c vip f)
