-- ===== src/Engine/Vserver/Shutdown.antt =====
-- engine/vserver.go: what `downAll` does to each service and its address.
use seesaw.Base.{
  ◌≡◌, refl, ◌∙◌, ◌⊎◌, inl, inr, Bool, true, false, ◌||◌, none, some, List, [], ◌∷◌, All, All-imp,
  arith, Bool-cases, Option-cases, map,
}
use seesaw.Engine.Vserver.Data.{ServiceKey, Service, Env}
use seesaw.Engine.Vserver.State.{Vserver, same_key, find, is_active, vserver_down}
use seesaw.Engine.Vserver.Settled.{IsSettled, AreDestsSettled-AreBelow}
use seesaw.Engine.Vserver.Addresses.{vserver_down_effect}
use seesaw.Engine.Vserver.Found.{All-find}
use seesaw.Engine.Vserver.Events.{down_one, down_keys, down_all, Event, run}
use seesaw.Engine.Vserver.Histories.{IsFresh, run-IsSettled}
use seesaw.Engine.Vserver.TakenDown.{
  IsUnder, AreUnder, IsOff, taken_down, taken_down-keeps, find-taken_down, find_same,
  vserver_down-AreUnder, vserver_down-IsOff, vserver_down-found,
}

-- A service that `vserver.down` leaves is down.
left_down :
    (env : Env) (v : Vserver) (key : ServiceKey) (s : Service)
    → AreUnder v
    → find key v.services ≡ some s
    → (find key (vserver_down env v s.vip).0.services ≡ some (taken_down s.vip s))
      × ((taken_down s.vip s).active ≡ false)
left_down env v key s u there =
    let w = (vserver_down env v s.vip).0 in
    let (services, active) = vserver_down_effect env v s.vip in
    let found : find key w.services ≡ some (taken_down s.vip s) =
      ground (arith, find-taken_down key s.vip v.services) in
    let under =
      All-find (IsUnder w) key w.services (taken_down s.vip s) found
        (vserver_down-AreUnder env v s.vip u) in
    (found, under.0 (ground (arith, active s.vip, (taken_down-keeps s.vip s).1)))

-- With every service under its address, a round of `downAll` only takes the address down.
down_one_cases :
    (env : Env) (v : Vserver) (key : ServiceKey)
    → AreUnder v
    → (((down_one env v key).0 ≡ v) × IsOff v key)
      ⊎ ((s : Service) × (find key v.services ≡ some s)
          × ((down_one env v key).0 ≡ (vserver_down env v s.vip).0))
unfolding down_one IsOff
down_one_cases env v key u = elim (Option-cases (find key v.services)) [
  | inl missing ↦ inl (ground (arith, missing), λ s found. absurd (ground (arith, missing)))
  | inr (s, there) ↦ elim (Bool-cases (is_active v s.vip)) [
    | inl on ↦ inr (s, there, ground (arith, left_down env v key s u there))
    | inr off ↦ inl (
      ground (arith, (All-find (IsUnder v) key v.services s there u).0 off),
      λ t found. ground (arith, off),
    )
  ]
]

module _ (env : Env) (v : Vserver) (key : ServiceKey) (u : AreUnder v) where
  down_one-AreUnder : AreUnder (down_one env v key).0
  down_one-AreUnder = elim (down_one_cases env v key u) [
    | inl (same, off) ↦ rw same u
    | inr (s, there, down) ↦ rw down (vserver_down-AreUnder env v s.vip u)
  ]

  down_one-IsOff : IsOff (down_one env v key).0 key
  down_one-IsOff = elim (down_one_cases env v key u) [
    | inl (same, off) ↦ rw same off
    | inr (s, there, down) ↦ rw down (vserver_down-found env v s.vip key s there refl)
  ]

  down_one-IsOff_other : (k : ServiceKey) → IsOff v k → IsOff (down_one env v key).0 k
  down_one-IsOff_other k off = elim (down_one_cases env v key u) [
    | inl (same, _) ↦ rw same off
    | inr (s, there, down) ↦ rw down (vserver_down-IsOff env v s.vip k off)
  ]

abbrev has_key : ServiceKey → List ServiceKey → Bool
has_key key [] = false
has_key key (k ∷ ks) = same_key k key || has_key key ks

IsOff-same : (v : Vserver) (k key : ServiceKey) → same_key k key ≡ true → IsOff v k → IsOff v key
unfolding IsOff
IsOff-same v k key e off s found = off s (find_same k key v.services e ∙ found)

down_keys-IsOff :
    (env : Env) (v : Vserver) (keys : List ServiceKey)
    → AreUnder v
    → AreUnder (down_keys env v keys).0
      × ((key : ServiceKey)
          → (has_key key keys ≡ true) ⊎ IsOff v key
          → IsOff (down_keys env v keys).0 key)
unfolding down_keys
down_keys-IsOff env v [] u = (u, λ key h. elim h [ inl e ↦ absurd (ground arith) | inr off ↦ off ])
down_keys-IsOff env v (k ∷ ks) u =
    let w = (down_one env v k).0 in
    let (under, off) = down_keys-IsOff env w ks (down_one-AreUnder env v k u) in
    (
      under,
      λ key h. off key (elim h [
        | inl e ↦ elim (Bool-cases (same_key k key)) [
          | inl here ↦ inr (IsOff-same w k key here (down_one-IsOff env v k u))
          | inr other ↦ inl (ground (arith, e, other))
        ]
        | inr o ↦ inr (down_one-IsOff_other env v k u key o)
      ]),
    )

has_key-find :
    (key : ServiceKey) (ss : List Service)
    → (find key ss ≡ none) ⊎ (has_key key (map (λ (s : Service). s.key) ss) ≡ true)
has_key-find key [] = inl refl
has_key-find key (s ∷ ss) = ground (arith, has_key-find key ss)

IsSettled-AreUnder : (env : Env) (v : Vserver) → IsSettled env v → AreUnder v
IsSettled-AreUnder env v h =
    All-imp
      (λ s p. ((λ off. ground (arith, p.0, off)), AreDestsSettled-AreBelow s.active s.dests p.1))
      v.services h.services

settled_down :
    (env : Env) (v : Vserver) (key : ServiceKey) (s : Service)
    → IsSettled env v
    → find key (down_all env v).0.services ≡ some s
    → (is_active (down_all env v).0 s.vip ≡ false)
      × (s.active ≡ false)
      × All (λ d. d.active ≡ false) s.dests
unfolding down_all IsOff
settled_down env v key s h found =
    let w = (down_all env v).0 in
    let keys = map (λ (t : Service). t.key) v.services in
    let (under, off) = down_keys-IsOff env v keys (IsSettled-AreUnder env v h) in
    let known : (has_key key keys ≡ true) ⊎ IsOff v key = elim (has_key-find key v.services) [
      | inl missing ↦ inr (λ t there. absurd (ground (arith, missing)))
      | inr there ↦ inl there
    ] in
    let address : is_active w s.vip ≡ false = off key known s found in
    let (down, below) = All-find (IsUnder w) key w.services s found under in
    (address, down address, All-imp (λ d b. b (down address)) s.dests below)

-- Whatever check notifications and overrides of backends and destinations a freshly configured vserver
-- has handled, after `downAll` every service that it holds is
-- down, with all of its destinations and with its address.
pub run-down_all :
    (env : Env) (v : Vserver) (es : List Event) (key : ServiceKey) (s : Service)
    → IsFresh v
    → find key (down_all env (run env v es).0).0.services ≡ some s
    → (is_active (down_all env (run env v es).0).0 s.vip ≡ false)
      × (s.active ≡ false)
      × All (λ d. d.active ≡ false) s.dests
run-down_all env v es key s f found =
    settled_down env (run env v es).0 key s (run-IsSettled env v es f) found
