-- ===== src/Engine/Healthchecks/Delivery.antt =====
-- engine/healthcheck.go: the notifications of a healthcheck reach every check that asked for it.
use mathlib.Core.List.{Memᴰ}
use mathlib.Core.List.Memᴰ.{head, tail, append_left, append_right}
use mathlib.Core.Option as Option
use seesaw.Base.{
  ◌∙◌, ℕ, ◌≡◌, refl, subst, sym, Bool, true, Option, none, some, List, [], ◌∷◌, ◌++◌, arith,
  Option-cases, Bool-cases, ◌≢◌, ap, inl, inr, lookup, lookup-insert, is_some, ℕ_discrete,
}
use seesaw.Healthcheck.Check.Defs
use seesaw.Engine.Healthchecks.Keys.{dedup, CheckKey, CheckerKey, Healthcheck, plain, same_mode}
use seesaw.Engine.Healthchecks.Marks.{MarkTable, mark_backend}
use seesaw.Engine.Healthchecks.Checkers.{
  Texts, Config, mark_key, new_config, make_config, new_checker,
}
use seesaw.Engine.Healthchecks.Defs.{
  Check, Checks, Manager, Build, config_of, record_check, record_config, assigned, build_check,
  build_all, build_maps, all_checks, checker_key, set_checks, update, listed, notes_for, made,
}

-- The manager that is told of the status of an id passes it on for this check.
abbrev IsServed : List (ℕ × Config) → List (ℕ × List Check) → Check → Type 0
IsServed cfgs checks c = (id : ℕ) × (is_some (lookup id cfgs) ≡ true) × Memᴰ c (listed id checks)

-- A healthcheck that `newConfig` makes a checker for.
abbrev pub is_accepted : Texts → CheckKey × Check → Bool
is_accepted texts (key, c) = is_some (new_checker texts key.mode c.healthcheck c.healthcheck.type)

record_check-IsServed :
    (b : Build) (ckey : CheckerKey) (id : ℕ) (cfg : Config) (c d : Check)
    → IsServed b.cfgs b.checks d
    → IsServed (record_check b ckey id cfg c).cfgs (record_check b ckey id cfg c).checks d
unfolding record_check
record_check-IsServed b ckey id cfg c d (i, known, member) = elim (ℕ_discrete id i) [
  | yes same ↦ (
    i,
    ground (arith, lookup-insert id i cfg b.cfgs),
    subst (λ l. Memᴰ d l)
        (ground (arith, lookup-insert id i (listed id b.checks ++ c ∷ []) b.checks))
        (append_left (c ∷ []) member),
  )
  | no other ↦ (
    i,
    ground (arith, lookup-insert id i cfg b.cfgs),
    subst (λ l. Memᴰ d l)
        (ground (arith, lookup-insert id i (listed id b.checks ++ c ∷ []) b.checks)) member,
  )
]

record_check-serves :
    (b : Build) (ckey : CheckerKey) (id : ℕ) (cfg : Config) (c : Check)
    → IsServed (record_check b ckey id cfg c).cfgs (record_check b ckey id cfg c).checks c
unfolding record_check
record_check-serves b ckey id cfg c = (
  id,
  ground (arith, lookup-insert id id cfg b.cfgs),
  subst (λ l. Memᴰ c l)
      (ground (arith, lookup-insert id id (listed id b.checks ++ c ∷ []) b.checks))
      (append_right (listed id b.checks) (head {xs = []} refl)),
)

record_config-IsServed :
    (b b' : Build) (ckey : CheckerKey) (c d : Check) (a : ℕ × ℕ)
    (result : Option (MarkTable × Option Config))
    → IsServed b.cfgs b.checks d
    → record_config b ckey c a result ≡ some b'
    → IsServed b'.cfgs b'.checks d
unfolding record_config
record_config-IsServed b b' ckey c d a none s e = absurd (ground arith)
record_config-IsServed b b' ckey c d a (some (t, none)) s e =
    subst (λ x. IsServed x.cfgs x.checks d) (Option.some-injective _ _ e) s
record_config-IsServed b b' ckey c d a (some (t, some cfg)) s e =
    subst (λ x. IsServed x.cfgs x.checks d) (Option.some-injective _ _ e)
      (record_check-IsServed (record b { table = t; next = a.1 }) ckey a.0 cfg c d s)

record_config-serves :
    (b b' : Build) (ckey : CheckerKey) (c : Check) (a : ℕ × ℕ)
    (result : Option (MarkTable × Option Config))
    → ((t : MarkTable) → result ≢ some (t, none))
    → record_config b ckey c a result ≡ some b'
    → IsServed b'.cfgs b'.checks c
unfolding record_config
record_config-serves b b' ckey c a none s e = absurd (ground arith)
record_config-serves b b' ckey c a (some (t, none)) s e = absurd (s t refl)
record_config-serves b b' ckey c a (some (t, some cfg)) s e =
    subst (λ x. IsServed x.cfgs x.checks c) (Option.some-injective _ _ e)
      (record_check-serves (record b { table = t; next = a.1 }) ckey a.0 cfg c)

make_config-is_some :
    (texts : Texts) (id : ℕ) (key : CheckKey) (hc : Healthcheck) (ip mark : ℕ)
    → is_some (make_config texts id key hc ip mark)
      ≡ is_some (new_checker texts key.mode hc hc.type)
unfolding make_config
make_config-is_some texts id key hc ip mark =
    elim (Option-cases (new_checker texts key.mode hc hc.type)) [
      | inl refused ↦ ground arith
      | inr (checker, made) ↦ ground arith
    ]

config_of-accepted :
    (texts : Texts) (cfgs : List (ℕ × Config)) (t t' : MarkTable) (id : ℕ) (kc : CheckKey × Check)
    → is_accepted texts kc ≡ true
    → config_of texts cfgs t id (checker_key kc) ≢ some (t', none)
unfolding config_of new_config dedup
config_of-accepted texts cfgs t t' id kc ok e = elim (Option-cases (lookup id cfgs)) [
  | inr (old, found) ↦ ground arith
  | inl missing ↦ elim (Bool-cases (same_mode kc.0.mode plain)) [
    | inl is_plain ↦
        ground (arith, make_config-is_some texts id (dedup kc.0) kc.1.healthcheck kc.0.backend_ip 0)
    | inr marked ↦ elim (Option-cases (mark_backend t (mark_key (dedup kc.0)))) [
      | inl exhausted ↦ ground arith
      | inr ((t'', mark), got) ↦
          ground
            (arith, make_config-is_some texts id (dedup kc.0) kc.1.healthcheck kc.0.vserver_ip mark)
    ]
  ]
]

build_all-IsServed :
    (texts : Texts) (ids : List (CheckerKey × ℕ)) (cfgs : List (ℕ × Config)) (all : Checks)
    (b b' : Build) (d : Check)
    → IsServed b.cfgs b.checks d
    → build_all texts ids cfgs all b ≡ some b'
    → IsServed b'.cfgs b'.checks d
unfolding build_all build_check
build_all-IsServed texts ids cfgs [] b b' d s e =
    subst (λ x. IsServed x.cfgs x.checks d) (Option.some-injective _ _ e) s
build_all-IsServed texts ids cfgs (kc ∷ rest) b b' d s e =
    elim (Option-cases (build_check texts ids cfgs kc b)) [
      | inl stopped ↦ absurd (ground arith)
      | inr (b'', went) ↦
          build_all-IsServed texts ids cfgs rest b'' b' d
            (record_config-IsServed b b'' (checker_key kc) kc.1 d
              (assigned (checker_key kc) ids b.next)
              (config_of texts cfgs b.table (assigned (checker_key kc) ids b.next).0
                (checker_key kc))
              s went)
            (ground arith)
    ]

build_all-serves :
    (texts : Texts) (ids : List (CheckerKey × ℕ)) (cfgs : List (ℕ × Config)) (kc : CheckKey × Check)
    (all : Checks) (b b' : Build)
    → is_accepted texts kc ≡ true
    → Memᴰ kc all
    → build_all texts ids cfgs all b ≡ some b'
    → IsServed b'.cfgs b'.checks kc.1
unfolding build_all build_check
build_all-serves texts ids cfgs kc _ b b' ok (head {x} {xs} same) e =
    elim (Option-cases (build_check texts ids cfgs x b)) [
      | inl stopped ↦ absurd (ground arith)
      | inr (b'', went) ↦
          build_all-IsServed texts ids cfgs xs b'' b' kc.1
            (subst (λ y. IsServed b''.cfgs b''.checks y.1) (sym same)
              (record_config-serves b b'' (checker_key x) x.1 (assigned (checker_key x) ids b.next)
                (config_of texts cfgs b.table (assigned (checker_key x) ids b.next).0
                  (checker_key x))
                (λ t.
                  config_of-accepted texts cfgs b.table t _ x
                    (subst (λ y. is_accepted texts y ≡ true) same ok))
                went))
            (ground arith)
    ]
build_all-serves texts ids cfgs kc _ b b' ok (tail {x} {xs} member) e =
    elim (Option-cases (build_check texts ids cfgs x b)) [
      | inl stopped ↦ absurd (ground arith)
      | inr (b'', went) ↦ build_all-serves texts ids cfgs kc xs b'' b' ok member (ground arith)
    ]

notes_for-member :
    (st : Defs.Status) (c : Check) (cs : List Check)
    → Memᴰ c cs
    → Memᴰ (record { vserver = c.vserver; key = c.key; status = st }) (notes_for st cs)
unfolding notes_for
notes_for-member st c _ (head same) =
    head (ap (λ d. record { vserver = d.vserver; key = d.key; status = st }) same)
notes_for-member st c _ (tail member) = tail (notes_for-member st c _ member)

set_checks-enabled :
    (h : Manager) (vserver : ℕ) (checks : Option Checks)
    → (set_checks h vserver checks).enabled ≡ h.enabled
set_checks-enabled h vserver none = refl
set_checks-enabled h vserver (some checks) = refl

pub build_maps-enabled :
    (texts : Texts) (h h' : Manager) → build_maps texts h ≡ some h' → h'.enabled ≡ h.enabled
unfolding build_maps
build_maps-enabled texts h h' e = ground arith

-- What `buildMaps` takes over of the rounds.
pub build_maps-built :
    (texts : Texts) (h h' : Manager) (b : Build)
    → build_all texts h.ids h.cfgs
        (all_checks [] h.vserver_checks)
        (record { table = h.table; next = h.next; ids = []; cfgs = []; checks = [] })
      ≡ some b
    → build_maps texts h ≡ some h'
    → (h'.ids ≡ b.ids) × (h'.cfgs ≡ b.cfgs) × (h'.checks ≡ b.checks)
unfolding build_maps
build_maps-built texts h h' b went e = (ground arith, ground arith, ground arith)

build_maps-serves :
    (texts : Texts) (h h' : Manager) (kc : CheckKey × Check)
    → build_maps texts h ≡ some h'
    → Memᴰ kc (all_checks [] h.vserver_checks)
    → is_accepted texts kc ≡ true
    → IsServed h'.cfgs h'.checks kc.1
unfolding build_maps
build_maps-serves texts h h' kc e member ok =
    elim (Option-cases (
      build_all texts h.ids h.cfgs (all_checks [] h.vserver_checks)
        (record { table = h.table; next = h.next; ids = []; cfgs = []; checks = [] }))) [
          | inl stopped ↦ absurd (ground arith)
          | inr (b, built) ↦
              let served : IsServed b.cfgs b.checks kc.1 =
                build_all-serves texts h.ids h.cfgs kc (all_checks [] h.vserver_checks) _ b ok
                  member built in
              let same = build_maps-built texts h h' b built e in
              (
                served.0,
                ap (λ l. is_some (lookup served.0 l)) same.1 ∙ served.1,
                subst (λ l. Memᴰ kc.1 (listed served.0 l)) (sym same.2) served.2,
              )
        ]

-- After an update, whatever the checks of the vservers and the ids and configurations from before:
-- if the healthcheck manager is enabled, each check of any vserver that is kept for its key, and
-- whose healthcheck a checker can be made for, has an id such that of every notification of that id
-- one is made for its vserver under its key.
pub update_delivers :
    (texts : Texts) (h h' : Manager) (vserver : ℕ) (checks : Option Checks) (kc : CheckKey × Check)
    → update texts h vserver checks ≡ some h'
    → h.enabled ≡ true
    → Memᴰ kc (all_checks [] (set_checks h vserver checks).vserver_checks)
    → is_accepted texts kc ≡ true
    → (id : ℕ) × ((st : Defs.Status)
        → Memᴰ
            (record { vserver = kc.1.vserver; key = kc.1.key; status = st })
            (made h' (record { id = id; status = st })))
unfolding update build_maps made
update_delivers texts h h' vserver checks kc e on member ok =
    let g = set_checks h vserver checks in
    let served = build_maps-serves texts g h' kc e member ok in
    let still : h'.enabled ≡ true =
      build_maps-enabled texts g h' e ∙ (set_checks-enabled h vserver checks ∙ on) in
    (served.0, λ st. rw (still, served.1) (notes_for-member st kc.1 _ served.2))
