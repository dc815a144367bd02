-- ===== src/Base/Keyed.antt =====
-- Maps with keys of any type that has a Boolean equality.
use Prim.Native.Nat.{ℕ, suc, ◌+◌}
use mathlib.Core.Path.{◌≡◌, refl, subst}
use mathlib.Core.Logic.{◌↔◌, inl, inr}
use mathlib.Core.Bool.{Bool, true}
use mathlib.Core.List.{List, [], ◌∷◌}
use mathlib.Core.Option.{Option, none, some}
use native.Mathlib.Omega.{arith}
use seesaw.Base.Tests.{◌==◌, if◌then◌else◌, Bool-cases}

pub record Eq {ℓ} (A : Type ℓ) : Type ℓ where
  pub beq : A → A → Bool
  pub beq_iff : (a b : A) → (beq a b ≡ true) ↔ (a ≡ b)

pub nat_iff : (a b : ℕ) → ((a == b) ≡ true) ↔ (a ≡ b)
nat_iff a b = (λ h. ground arith, λ h. ground arith)

instance abbrev pub nat_eq : Eq ℕ
nat_eq = record { beq = ◌==◌; beq_iff = nat_iff }

pub beq_refl {κ} : {K : Type κ} ⦃e : Eq K⦄ (k : K) → e.beq k k ≡ true
beq_refl ⦃e⦄ k = (e.beq_iff k k).1 refl

module _ {ℓ κ} {K : Type κ} {V : Type ℓ} ⦃e : Eq K⦄ where
  abbrev pub lookup_key : K → List (K × V) → Option V
  lookup_key k [] = none
  lookup_key k ((j, v) ∷ m) = if e.beq j k then some v else lookup_key k m

  abbrev pub insert_key : K → V → List (K × V) → List (K × V)
  insert_key k v [] = (k, v) ∷ []
  insert_key k v ((j, w) ∷ m) = if e.beq j k then (k, v) ∷ m else (j, w) ∷ insert_key k v m

  abbrev pub remove_key : K → List (K × V) → List (K × V)
  remove_key k [] = []
  remove_key k ((j, w) ∷ m) = let rest = remove_key k m in if e.beq j k then rest else (j, w) ∷ rest

  pub lookup_key-insert_key :
      (k j : K) (v : V) (m : List (K × V))
      → lookup_key j (insert_key k v m) ≡ (if e.beq k j then some v else lookup_key j m)
  lookup_key-insert_key k j v [] = refl
  lookup_key-insert_key k j v ((i, w) ∷ m) =
      ground (arith, e.beq_iff i k, e.beq_iff i j, e.beq_iff k j, lookup_key-insert_key k j v m)

  pub lookup_key-remove_key :
      (k j : K) (m : List (K × V))
      → lookup_key j (remove_key k m) ≡ (if e.beq k j then none else lookup_key j m)
  lookup_key-remove_key k j [] = ground arith
  lookup_key-remove_key k j ((i, w) ∷ m) =
      ground (arith, e.beq_iff i k, e.beq_iff i j, e.beq_iff k j, lookup_key-remove_key k j m)

  -- No key stands twice.
  abbrev pub AreDistinct : List (K × V) → Type ℓ
  AreDistinct [] = Unit
  AreDistinct ((j, v) ∷ m) = (lookup_key j m ≡ none) × AreDistinct m

  pub insert_key-AreDistinct :
      (k : K) (v : V) (m : List (K × V)) → AreDistinct m → AreDistinct (insert_key k v m)
  insert_key-AreDistinct k v [] h = (refl, tt)
  insert_key-AreDistinct k v ((j, w) ∷ m) h = elim (Bool-cases (e.beq j k)) [
    | inl same ↦ rw (same) ((subst (λ i. lookup_key i m ≡ none) ((e.beq_iff j k).0 same) h.0, h.1))
    | inr other ↦ rw (other) (
        (
          ground (arith, lookup_key-insert_key k j v m, e.beq_iff k j, e.beq_iff j k),
          insert_key-AreDistinct k v m h.1,
        ))
  ]

  pub remove_key-AreDistinct :
      (k : K) (m : List (K × V)) → AreDistinct m → AreDistinct (remove_key k m)
  remove_key-AreDistinct k [] h = tt
  remove_key-AreDistinct k ((j, w) ∷ m) h =
      ground (arith, remove_key-AreDistinct k m h.1, lookup_key-remove_key k j m)

  pub remove_key-missing : (k : K) (m : List (K × V)) → lookup_key k m ≡ none → remove_key k m ≡ m
  remove_key-missing k [] h = refl
  remove_key-missing k ((j, w) ∷ m) h = ground (arith, remove_key-missing k m)

module _ {κ} {K : Type κ} ⦃e : Eq K⦄ where
  -- How often a number stands among the values.
  abbrev pub uses : ℕ → List (K × ℕ) → ℕ
  uses n [] = 0
  uses n ((j, v) ∷ m) = let rest = uses n m in if v == n then suc rest else rest

  pub uses-insert_key :
      (n : ℕ) (k : K) (v : ℕ) (m : List (K × ℕ))
      → lookup_key k m ≡ none
      → uses n (insert_key k v m) ≡ uses n m + (if v == n then 1 else 0)
  uses-insert_key n k v [] h = ground arith
  uses-insert_key n k v ((j, w) ∷ m) h = ground (arith, uses-insert_key n k v m)

  pub uses-remove_key :
      (n : ℕ) (k : K) (v : ℕ) (m : List (K × ℕ))
      → AreDistinct m
      → lookup_key k m ≡ some v
      → uses n m ≡ uses n (remove_key k m) + (if v == n then 1 else 0)
  uses-remove_key n k v [] d h = absurd (ground arith)
  uses-remove_key n k v ((j, w) ∷ m) d h = elim (Bool-cases (e.beq j k)) [
    | inl same ↦
        let gone : lookup_key k m ≡ none =
          subst (λ i. lookup_key i m ≡ none) ((e.beq_iff j k).0 same) d.0 in
        ground (arith, remove_key-missing k m gone)
    | inr other ↦ ground (arith, uses-remove_key n k v m d.1)
  ]
