-- ===== src/Engine/Vserver/Config/Links.antt =====
-- engine/vserver.go: the pointers between checks and destinations that `expandChecks` makes.
use mathlib.Core.List.{Memᴰ}
use mathlib.Core.List.Memᴰ.{head, append_left, append_right}
use mathlib.Core.Option as Option
use seesaw.Base.{
  ℕ, ◌<◌, ◌≡◌, refl, sym, ap, ◌∙◌, subst, true, some, List, [], ◌∷◌, ◌++◌, All, All-imp, All-append,
  arith, Bool-cases, Option-cases, inl, inr, is_some, lookup, insert, lookup-insert, lookup_key,
  lookup_key-insert_key, ℕ_discrete,
}
use seesaw.Engine.Healthchecks.Defs.{unknown_status}
use seesaw.Engine.Healthchecks.Keys.{same_key, CheckKey, Healthcheck, check_key_eq}
use seesaw.Engine.Vserver.Data.{VserverEntry, ServiceKey, Service}
use seesaw.Engine.Vserver.State.{VserverCheck}
use seesaw.Engine.Vserver.Config.Data.{Config, CheckRef}
use seesaw.Engine.Vserver.Config.Checks.{
  Expansion, new_check, new_check_key, shared_check, add_dest, expand_shared, expand_own,
  expand_own_entries, expand_ventry,
}

-- The check of a number points to a destination.
abbrev pub PointsTo : List (ℕ × VserverCheck) → ServiceKey × ℕ → ℕ → Type 0
PointsTo heap r id = (c : VserverCheck) × (lookup id heap ≡ some c) × Memᴰ r c.dests

-- Numbers are not used before their turn, and the map of the checks leads to checks that exist.
abbrev pub IsSound : Expansion → Type 0
IsSound x =
    ((id : ℕ) → is_some (lookup id x.heap) ≡ true → id < x.next)
    × ((key : CheckKey) (ref : CheckRef)
        → lookup_key key x.refs ≡ some ref
        → is_some (lookup ref.id x.heap) ≡ true)

-- What a step may do: it keeps the pointers, and stays sound.
abbrev pub Grows : Expansion → Expansion → Type 0
Grows x y =
    IsSound y × ((id : ℕ) (r : ServiceKey × ℕ) → PointsTo x.heap r id → PointsTo y.heap r id)

pub Grows-trans : (x y z : Expansion) → Grows x y → Grows y z → Grows x z
Grows-trans x y z g h = (h.0, λ id r p. h.1 id r (g.1 id r p))

abbrev fresh_check : VserverCheck
fresh_check = record { status = unknown_status; dests = [] }

insert-is_some :
    (k id : ℕ) (c : VserverCheck) (heap : List (ℕ × VserverCheck))
    → is_some (lookup id heap) ≡ true
    → is_some (lookup id (insert k c heap)) ≡ true
insert-is_some k id c heap h = ground (arith, lookup-insert k id c heap)

new_check-Grows :
    (x : Expansion) (key : CheckKey) (hc : Healthcheck)
    → IsSound x
    → Grows x (new_check x key hc).0
      × (is_some (lookup (new_check x key hc).1 (new_check x key hc).0.heap) ≡ true)
unfolding new_check
new_check-Grows x key hc s = (
  (
    (
      λ id known. ground (arith, lookup-insert x.next id fresh_check x.heap, s.0 id),
      λ k ref found.
          let e = lookup_key-insert_key key k (record { id = x.next; healthcheck = hc }) x.refs in
          elim (Bool-cases (same_key key k)) [
            | inl same ↦ ground (arith, e, lookup-insert x.next ref.id fresh_check x.heap)
            | inr other ↦
                insert-is_some x.next ref.id fresh_check x.heap (s.1 k ref (ground (arith, e)))
          ],
    ),
    λ id r (c, e, m). (c, ground (arith, lookup-insert x.next id fresh_check x.heap, s.0 id, e), m),
  ),
  ground (arith, lookup-insert x.next x.next fresh_check x.heap),
)

shared_check-Grows :
    (x : Expansion) (key : CheckKey) (hc : Healthcheck)
    → IsSound x
    → Grows x (shared_check x key hc).0
      × (is_some (lookup (shared_check x key hc).1 (shared_check x key hc).0.heap) ≡ true)
unfolding shared_check
shared_check-Grows x key hc s = elim (Option-cases (lookup_key key x.refs)) [
  | inl missing ↦ rw (shared_check, missing) (new_check-Grows x key hc s)
  | inr (ref, there) ↦ rw (shared_check, there) (((s, λ id r p. p), s.1 key ref there))
]

abbrev with_ref : VserverCheck → ServiceKey × ℕ → VserverCheck
with_ref c r = record c { dests = c.dests ++ r ∷ [] }

add_dest-keeps :
    (x : Expansion) (id : ℕ) (r : ServiceKey × ℕ) (c : VserverCheck)
    → lookup id x.heap ≡ some c
    → IsSound x
    → let heap = insert id (with_ref c r) x.heap in
      Grows x (record x { heap = heap }) × PointsTo heap r id
add_dest-keeps x id r c there s = (
  (
    (
      λ i known. ground (arith, lookup-insert id i (with_ref c r) x.heap, s.0 i, s.0 id),
      λ k ref found. insert-is_some id ref.id (with_ref c r) x.heap (s.1 k ref found),
    ),
    λ i r' (c', e, m). elim (ℕ_discrete id i) [
      | yes same ↦ (
        with_ref c r,
        ground (arith, lookup-insert id i (with_ref c r) x.heap),
        append_left (r ∷ []) (
            subst (λ (d : VserverCheck). Memᴰ r' d.dests)
              (Option.some-injective c' c (sym e ∙ (ap (λ j. lookup j x.heap) (sym same) ∙ there)))
              m),
      )
      | no other ↦ (c', ground (arith, lookup-insert id i (with_ref c r) x.heap, e), m)
    ],
  ),
  (
    with_ref c r,
    ground (arith, lookup-insert id id (with_ref c r) x.heap),
    append_right c.dests (head {xs = []} refl),
  ),
)

add_dest-Grows :
    (x : Expansion) (id : ℕ) (r : ServiceKey × ℕ)
    → is_some (lookup id x.heap) ≡ true
    → IsSound x
    → Grows x (add_dest x id r) × PointsTo (add_dest x id r).heap r id
unfolding add_dest
add_dest-Grows x id r known s = elim (Option-cases (lookup id x.heap)) [
  | inl missing ↦ absurd (ground arith)
  | inr (c, there) ↦ rw (add_dest, there) (add_dest-keeps x id r c there s)
]

-- What an expansion of some checks does, which are then to point to a destination.
abbrev pub Expands : ServiceKey × ℕ → Expansion → Expansion × List ℕ → Type 0
Expands r x (y, ids) = Grows x y × All (PointsTo y.heap r) ids

Expands-cons :
    (r : ServiceKey × ℕ) (x y : Expansion) (id : ℕ) (rest : Expansion × List ℕ)
    → Grows x y
    → is_some (lookup id y.heap) ≡ true
    → (IsSound (add_dest y id r) → Expands r (add_dest y id r) rest)
    → Expands r x (rest.0, id ∷ rest.1)
Expands-cons r x y id rest g known continue =
    let added = add_dest-Grows y id r known g.0 in
    let more = continue added.0.0 in
    (
      Grows-trans x y rest.0 g (Grows-trans y (add_dest y id r) rest.0 added.0 more.0),
      (more.0.1 id r added.1, more.1),
    )

pub expand_shared-Expands :
    (svc : Service) (ip : ℕ) (hcs : List Healthcheck) (x : Expansion)
    → IsSound x
    → Expands (svc.key, ip) x (expand_shared svc ip hcs x)
unfolding expand_shared
expand_shared-Expands svc ip [] x s = ((s, λ id r p. p), tt)
expand_shared-Expands svc ip (hc ∷ hcs) x s =
    let key = new_check_key svc.vip ip 0 0 hc in
    let made = shared_check-Grows x key hc s in
    Expands-cons (svc.key, ip) x (shared_check x key hc).0 (shared_check x key hc).1 _ made.0 made.1
      (expand_shared-Expands svc ip hcs _)

expand_own-Expands :
    (svc : Service) (ip port proto : ℕ) (hcs : List Healthcheck) (x : Expansion)
    → IsSound x
    → Expands (svc.key, ip) x (expand_own svc ip port proto hcs x)
unfolding expand_own
expand_own-Expands svc ip port proto [] x s = ((s, λ id r p. p), tt)
expand_own-Expands svc ip port proto (hc ∷ hcs) x s =
    let key = new_check_key svc.vip ip port proto hc in
    let made = new_check-Grows x key hc s in
    Expands-cons (svc.key, ip) x (new_check x key hc).0 (new_check x key hc).1 _ made.0 made.1
      (expand_own-Expands svc ip port proto hcs _)

pub Expands-append :
    (r : ServiceKey × ℕ) (x y : Expansion) (ids : List ℕ) (p : Expansion × List ℕ)
    → Expands r x (y, ids)
    → Expands r y p
    → Expands r x (p.0, ids ++ p.1)
Expands-append r x y ids p first second = (
  Grows-trans x y p.0 first.0 second.0,
  All-append (PointsTo p.0.heap r) ids p.1 (All-imp (λ id. second.0.1 id r) ids first.1) second.1,
)

expand_own_entries-Expands :
    (svc : Service) (ip : ℕ) (entries : List (ℕ × VserverEntry)) (x : Expansion)
    → IsSound x
    → Expands (svc.key, ip) x (expand_own_entries svc ip entries x)
unfolding expand_own_entries
expand_own_entries-Expands svc ip [] x s = ((s, λ id r p. p), tt)
expand_own_entries-Expands svc ip ((k, ve) ∷ rest) x s =
    let own = expand_own-Expands svc ip ve.port ve.proto ve.healthchecks x s in
    Expands-append (svc.key, ip) x _ _ _ own (expand_own_entries-Expands svc ip rest _ own.0.0)

pub expand_ventry-Expands :
    (config : Config) (svc : Service) (ip : ℕ) (x : Expansion)
    → IsSound x
    → Expands (svc.key, ip) x (expand_ventry config svc ip x)
unfolding expand_ventry
expand_ventry-Expands config svc ip x s = elim (Bool-cases config.use_fwm) [
  | inl fwm ↦ rw (expand_ventry, fwm) (expand_own_entries-Expands svc ip config.entries x s)
  | inr no_fwm ↦
      rw (expand_ventry, no_fwm)
        (expand_own-Expands svc ip svc.key.port svc.key.proto svc.ventry.healthchecks x s)
]
