-- ===== src/Engine/Vserver/Found.antt =====
-- engine/vserver.go: a service under its key, and what a write to it means for the health of its
-- address.
use seesaw.Base.{
  ℕ, ◌≡◌, refl, ◌⊎◌, inl, inr, Bool, true, false, some, List, [], ◌∷◌, All, All-imp, arith, ◌==◌,
  if◌then◌else◌, Bool-cases,
}
use mathlib.Core.Path.{subst}
use seesaw.Engine.Vserver.Data.{ServiceKey, Service, Env}
use seesaw.Engine.Vserver.State.{same_key, find, replace, vserver_health}

-- The service that stands under the key has `P`, all others have `Q`.
abbrev pub Focus : (P Q : Service → Type 0) → ServiceKey → List Service → Type 0
Focus P Q key [] = Unit
Focus P Q key (s ∷ ss) =
    let rest = Focus P Q key ss in if same_key s.key key then P s × All Q ss else Q s × rest

pub Focus-find :
    (P Q : Service → Type 0) (key : ServiceKey) (ss : List Service) (s : Service)
    → Focus P Q key ss
    → find key ss ≡ some s
    → P s
Focus-find P Q key [] s h e = absurd (ground arith)
Focus-find P Q key (x ∷ ss) s h e = elim (Bool-cases (same_key x.key key)) [
  | inl here ↦ let same : x ≡ s = ground arith in subst P same (rw here at h).0
  | inr there ↦ Focus-find P Q key ss s (rw there at h).1 (rw there at e)
]

pub All-replace :
    (P Q R : Service → Type 0) (key : ServiceKey) (ss : List Service) (s s' : Service)
    → Focus P Q key ss
    → find key ss ≡ some s
    → R s'
    → ((x : Service) → Q x → R x)
    → All R (replace key s' ss)
All-replace P Q R key [] s s' h e r imp = tt
All-replace P Q R key (x ∷ ss) s s' h e r imp = elim (Bool-cases (same_key x.key key)) [
  | inl here ↦ rw here (r, All-imp imp ss (rw here at h).1)
  | inr there ↦ rw there (
    imp x (rw there at h).0,
    All-replace P Q R key ss s s' (rw there at h).1 (rw there at e) r imp,
  )
]

module _ (env : Env) (j : ℕ) (key : ServiceKey) (s s' : Service) where
  -- The health of an address does not see a write that leaves its own services' health alone.
  pub vserver_health-replace_same :
      (h : Bool) (ss : List Service)
      → find key ss ≡ some s
      → s'.vip ≡ s.vip
      → ((s.vip == j) ≡ false) ⊎ (s'.healthy ≡ s.healthy)
      → vserver_health env j h (replace key s' ss) ≡ vserver_health env j h ss
  unfolding vserver_health
  vserver_health-replace_same h [] e vip same = refl
  vserver_health-replace_same h (x ∷ ss) e vip same = ground (
    arith,
    vserver_health-replace_same h ss,
    vserver_health-replace_same true ss,
    vserver_health-replace_same false ss,
  )

  -- An address that is healthy stays so when one of its services becomes healthy.
  pub vserver_health-replace_up :
      (h : Bool) (ss : List Service)
      → find key ss ≡ some s
      → s'.vip ≡ s.vip
      → s.vip ≡ j
      → s.healthy ≡ false
      → s'.healthy ≡ true
      → vserver_health env j h ss ≡ true
      → vserver_health env j h (replace key s' ss) ≡ true
  unfolding vserver_health
  vserver_health-replace_up h [] e vip at was is up = absurd (ground arith)
  vserver_health-replace_up h (x ∷ ss) e vip at was is up = ground (
    arith,
    vserver_health-replace_up h ss,
    vserver_health-replace_up true ss,
    vserver_health-replace_up false ss,
  )

  -- An address that is not healthy stays so when one of its services becomes unhealthy.
  pub vserver_health-replace_down :
      (h : Bool) (ss : List Service)
      → find key ss ≡ some s
      → s'.vip ≡ s.vip
      → s.vip ≡ j
      → s.healthy ≡ true
      → s'.healthy ≡ false
      → vserver_health env j h ss ≡ false
      → vserver_health env j h (replace key s' ss) ≡ false
  unfolding vserver_health
  vserver_health-replace_down h [] e vip at was is up = absurd (ground arith)
  vserver_health-replace_down h (x ∷ ss) e vip at was is up = ground (
    arith,
    vserver_health-replace_down h ss,
    vserver_health-replace_down true ss,
    vserver_health-replace_down false ss,
  )

pub find-same_key :
    (key : ServiceKey) (ss : List Service) {s : Service}
    → find key ss ≡ some s
    → same_key s.key key ≡ true
find-same_key key [] e = absurd (ground arith)
find-same_key key (x ∷ ss) {s = s} e = ground (arith, find-same_key key ss {s = s})

pub find-replace :
    (key : ServiceKey) (ss : List Service) (s s' : Service)
    → find key ss ≡ some s
    → same_key s'.key key ≡ true
    → find key (replace key s' ss) ≡ some s'
find-replace key [] s s' e k = absurd (ground arith)
find-replace key (x ∷ ss) s s' e k = ground (arith, find-replace key ss s s')

pub Focus-replace :
    (P Q : Service → Type 0) (key : ServiceKey) (ss : List Service) (s s' : Service)
    → find key ss ≡ some s
    → same_key s'.key key ≡ true
    → P s'
    → All Q ss
    → Focus P Q key (replace key s' ss)
Focus-replace P Q key [] s s' e k p q = tt
Focus-replace P Q key (x ∷ ss) s s' e k p q = elim (Bool-cases (same_key x.key key)) [
  | inl here ↦ rw here (rw k (p, q.1))
  | inr there ↦ rw there (rw there (q.0, Focus-replace P Q key ss s s' (rw there at e) k p q.1))
]

pub All-find :
    (Q : Service → Type 0) (key : ServiceKey) (ss : List Service) (s : Service)
    → find key ss ≡ some s
    → All Q ss
    → Q s
All-find Q key [] s e q = absurd (ground arith)
All-find Q key (x ∷ ss) s e q = elim (Bool-cases (same_key x.key key)) [
  | inl here ↦ let same : x ≡ s = ground arith in subst Q same q.0
  | inr there ↦ All-find Q key ss s (rw there at e) q.1
]

pub replace-All :
    (Q : Service → Type 0) (key : ServiceKey) (ss : List Service) (s' : Service)
    → Q s'
    → All Q ss
    → All Q (replace key s' ss)
replace-All Q key [] s' p q = tt
replace-All Q key (x ∷ ss) s' p q = elim (Bool-cases (same_key x.key key)) [
  | inl here ↦ rw here (p, q.1)
  | inr there ↦ rw there (q.0, replace-All Q key ss s' p q.1)
]
