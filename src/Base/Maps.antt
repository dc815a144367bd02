-- ===== src/Base/Maps.antt =====
-- Maps with numbers for keys, as association lists. A lookup finds the first entry.
use Prim.Native.Nat.{ℕ}
use mathlib.Core.Path.{◌≡◌, refl, ap}
use mathlib.Core.Bool.{Bool, true, false}
use mathlib.Core.List.{List, [], ◌∷◌, ◌++◌}
use mathlib.Core.Option.{Option, none, some}
use native.Mathlib.Omega.{arith}
use native.Mathlib.Decide.{ℕ_discrete}
use mathlib.Core.Logic.{inl, inr}
use seesaw.Base.Tests.{◌==◌, if◌then◌else◌, Bool-cases}

abbrev pub is_some {ℓ} : {A : Type ℓ} → Option A → Bool
is_some none = false
is_some (some a) = true

module _ {ℓ} {V : Type ℓ} where
  abbrev pub lookup : ℕ → List (ℕ × V) → Option V
  lookup k [] = none
  lookup k ((j, v) ∷ m) = if j == k then some v else lookup k m

  abbrev pub insert : ℕ → V → List (ℕ × V) → List (ℕ × V)
  insert k v [] = (k, v) ∷ []
  insert k v ((j, w) ∷ m) = if j == k then (k, v) ∷ m else (j, w) ∷ insert k v m

  abbrev pub remove : ℕ → List (ℕ × V) → List (ℕ × V)
  remove k [] = []
  remove k ((j, w) ∷ m) = let rest = remove k m in if j == k then rest else (j, w) ∷ rest

  -- The entries whose keys pass a test.
  abbrev pub keep : (ℕ → Bool) → List (ℕ × V) → List (ℕ × V)
  keep p [] = []
  keep p ((j, w) ∷ m) = let rest = keep p m in if p j then (j, w) ∷ rest else rest

  pub lookup-insert :
      (k j : ℕ) (v : V) (m : List (ℕ × V))
      → lookup j (insert k v m) ≡ (if k == j then some v else lookup j m)
  lookup-insert k j v [] = refl
  lookup-insert k j v ((i, w) ∷ m) = ground (arith, lookup-insert k j v m)

  pub lookup-remove :
      (k j : ℕ) (m : List (ℕ × V)) → lookup j (remove k m) ≡ (if k == j then none else lookup j m)
  lookup-remove k j [] = ground arith
  lookup-remove k j ((i, w) ∷ m) = ground (arith, lookup-remove k j m)

  pub lookup-keep :
      (p : ℕ → Bool) (j : ℕ) (m : List (ℕ × V))
      → lookup j (keep p m) ≡ (if p j then lookup j m else none)
  lookup-keep p j [] = ground arith
  lookup-keep p j ((i, w) ∷ m) = elim (ℕ_discrete i j) [
    | yes e ↦ ground (arith, lookup-keep p j m, ap p e)
    | no ne ↦ ground (arith, lookup-keep p j m)
  ]

  pub lookup-append :
      (j : ℕ) (m n : List (ℕ × V))
      → lookup j (m ++ n) ≡ (if is_some (lookup j m) then lookup j m else lookup j n)
  lookup-append j [] n = refl
  lookup-append j ((i, w) ∷ m) n = ground (arith, lookup-append j m n)

  -- No key stands twice.
  abbrev pub AreKeysDistinct : List (ℕ × V) → Type ℓ
  AreKeysDistinct [] = Unit
  AreKeysDistinct ((j, v) ∷ m) = (lookup j m ≡ none) × AreKeysDistinct m

  pub insert-AreKeysDistinct :
      (k : ℕ) (v : V) (m : List (ℕ × V)) → AreKeysDistinct m → AreKeysDistinct (insert k v m)
  insert-AreKeysDistinct k v [] h = (refl, tt)
  insert-AreKeysDistinct k v ((j, w) ∷ m) h = elim (ℕ_discrete j k) [
    | yes e ↦ ground (arith, ap (λ i. lookup i m) e)
    | no ne ↦ ground (arith, insert-AreKeysDistinct k v m h.1, lookup-insert k j v m)
  ]

  pub remove-AreKeysDistinct :
      (k : ℕ) (m : List (ℕ × V)) → AreKeysDistinct m → AreKeysDistinct (remove k m)
  remove-AreKeysDistinct k [] h = tt
  remove-AreKeysDistinct k ((j, w) ∷ m) h =
      ground (arith, remove-AreKeysDistinct k m h.1, lookup-remove k j m)

module _ {ℓ κ} {V : Type ℓ} {W : Type κ} (f : ℕ → V → W) where
  -- A map over the values, which may look at the key.
  abbrev pub map_values : List (ℕ × V) → List (ℕ × W)
  map_values [] = []
  map_values ((j, v) ∷ m) = (j, f j v) ∷ map_values m

  pub lookup-map_values :
      (k : ℕ) (m : List (ℕ × V))
      → lookup k (map_values m) ≡ elim (lookup k m) [ none ↦ none | some v ↦ some (f k v) ]
  lookup-map_values k [] = refl
  lookup-map_values k ((j, v) ∷ m) = elim (ℕ_discrete j k) [
    | yes e ↦ ground (arith, ap (λ (i : ℕ). f i v) e)
    | no ne ↦ elim (Bool-cases (j == k)) [
      | inl same ↦ absurd (ground arith)
      | inr other ↦ rw (other, lookup) (lookup-map_values k m)
    ]
  ]

  pub map_values-AreKeysDistinct :
      (m : List (ℕ × V)) → AreKeysDistinct m → AreKeysDistinct (map_values m)
  map_values-AreKeysDistinct [] h = tt
  map_values-AreKeysDistinct ((j, v) ∷ m) h =
      (rw (lookup-map_values j m, h.0) refl, map_values-AreKeysDistinct m h.1)
