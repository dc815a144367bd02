-- ===== src/Engine/Healthchecks/Histories.antt =====
-- engine/healthcheck.go: the marks of the healthcheck manager over any history.
use seesaw.Base.{
  ℕ, ◌+◌, ◌≡◌, refl, Bool, false, Option, none, some, List, [], ◌∷◌, arith, ◌&&◌, leb, ltb,
  if◌then◌else◌, Option-cases, Bool-cases, lookup, lookup_key, AreDistinct, inl, inr,
  insert_key-AreDistinct, remove_key-AreDistinct, uses, uses-insert_key, uses-remove_key,
}
use seesaw.Engine.Marks.Defs.{put, get}
use seesaw.Engine.Marks.Allocation.{occurrences, occurrences-append, here, Reach-new_mark_allocator}
use seesaw.Engine.Healthchecks.Keys.{
  CheckKey, CheckerKey, Healthcheck, MarkKey, plain, same_mode, mark_key_eq,
}
use seesaw.Engine.Healthchecks.Marks.{
  MarkTable, mark_service, mark_backend, unmark_backend, prune, unmark_all_backends, new_mark_table,
  dsr_mark_base, dsr_mark_size,
}
use seesaw.Engine.Healthchecks.Checkers.{Texts, Config, mark_key, new_config}
use seesaw.Engine.Healthchecks.Defs.{
  Check, Checks, Manager, Build, Event, updated, enabled, disabled, quit, new_manager, config_of,
  record_check, record_config, assigned, build_check, build_all, build_maps, prune_marks,
  all_checks, checker_key, set_checks, update, handle, run, enable, disable, shutdown,
  some_uses_mark,
}

-- Each mark of the range is free, or the mark of one key; no key stands twice.
abbrev IsBalanced : MarkTable → Type 0
IsBalanced t =
    AreDistinct t.marks
    × ((m : ℕ)
        → uses m t.marks + occurrences m t.mark_alloc.marks
          ≡ (if leb dsr_mark_base m && ltb m (dsr_mark_base + dsr_mark_size) then 1 else 0))

mark_backend-IsBalanced :
    (t t' : MarkTable) (key : MarkKey) (mark : ℕ)
    → IsBalanced t
    → mark_backend t key ≡ some (t', mark)
    → IsBalanced t'
unfolding mark_backend get mark_service
mark_backend-IsBalanced t t' key mark h e = elim (Option-cases (lookup_key key t.marks)) [
  | inr (old, found) ↦ ground arith
  | inl missing ↦ (
    ground (arith, insert_key-AreDistinct key mark t.marks h.0),
    λ m. ground (arith, uses-insert_key m key mark t.marks missing, h.1 m),
  )
]

unmark_backend-IsBalanced :
    (t : MarkTable) (key : MarkKey) → IsBalanced t → IsBalanced (unmark_backend t key)
unfolding unmark_backend put mark_service
unmark_backend-IsBalanced t key h = elim (Option-cases (lookup_key key t.marks)) [
  | inl missing ↦ rw (unmark_backend, missing) h
  | inr (mark, found) ↦
      rw (unmark_backend, found)
        ((
          remove_key-AreDistinct key t.marks h.0,
          λ m. ground (
            arith,
            uses-remove_key m key mark t.marks h.0 found,
            occurrences-append m t.mark_alloc.marks (mark ∷ []),
            h.1 m,
          ),
        ))
]

prune-IsBalanced :
    (in_use : MarkKey → Bool) (keys : List (MarkKey × ℕ)) (t : MarkTable)
    → IsBalanced t
    → IsBalanced (prune in_use keys t)
unfolding prune
prune-IsBalanced in_use [] t h = h
prune-IsBalanced in_use ((key, mark) ∷ rest) t h = elim (Bool-cases (in_use key)) [
  | inl kept ↦ rw (prune, kept) (prune-IsBalanced in_use rest t h)
  | inr gone ↦
      rw (prune, gone)
        (prune-IsBalanced in_use rest (unmark_backend t key) (unmark_backend-IsBalanced t key h))
]

new_config-IsBalanced :
    (texts : Texts) (t t' : MarkTable) (id : ℕ) (key : CheckKey) (hc : Healthcheck)
    (cfg : Option Config)
    → IsBalanced t
    → new_config texts t id key hc ≡ some (t', cfg)
    → IsBalanced t'
unfolding new_config
new_config-IsBalanced texts t t' id key hc cfg h e = elim (Bool-cases (same_mode key.mode plain)) [
  | inl is_plain ↦ ground arith
  | inr marked ↦ elim (Option-cases (mark_backend t (mark_key key))) [
    | inl exhausted ↦ absurd (ground arith)
    | inr ((t'', mark), got) ↦
        ground (arith, mark_backend-IsBalanced t t'' (mark_key key) mark h got)
  ]
]

config_of-IsBalanced :
    (texts : Texts) (cfgs : List (ℕ × Config)) (t t' : MarkTable) (id : ℕ) (ckey : CheckerKey)
    (cfg : Option Config)
    → IsBalanced t
    → config_of texts cfgs t id ckey ≡ some (t', cfg)
    → IsBalanced t'
unfolding config_of
config_of-IsBalanced texts cfgs t t' id ckey cfg h e = elim (Option-cases (lookup id cfgs)) [
  | inl missing ↦ new_config-IsBalanced texts t t' id ckey.key ckey.cfg cfg h (ground arith)
  | inr (old, found) ↦ ground arith
]

record_config-IsBalanced :
    (b b' : Build) (ckey : CheckerKey) (c : Check) (a : ℕ × ℕ)
    (result : Option (MarkTable × Option Config))
    → ((t : MarkTable) (cfg : Option Config) → result ≡ some (t, cfg) → IsBalanced t)
    → record_config b ckey c a result ≡ some b'
    → IsBalanced b'.table
unfolding record_config record_check
record_config-IsBalanced b b' ckey c a none h e = absurd (ground arith)
record_config-IsBalanced b b' ckey c a (some (t, none)) h e = ground (arith, h t none refl)
record_config-IsBalanced b b' ckey c a (some (t, some cfg)) h e =
    ground (arith, h t (some cfg) refl)

build_all-IsBalanced :
    (texts : Texts) (ids : List (CheckerKey × ℕ)) (cfgs : List (ℕ × Config)) (all : Checks)
    (b b' : Build)
    → IsBalanced b.table
    → build_all texts ids cfgs all b ≡ some b'
    → IsBalanced b'.table
unfolding build_all build_check
build_all-IsBalanced texts ids cfgs [] b b' h e = ground arith
build_all-IsBalanced texts ids cfgs (kc ∷ rest) b b' h e =
    elim (Option-cases (build_check texts ids cfgs kc b)) [
      | inl stopped ↦ absurd (ground arith)
      | inr (b'', went) ↦
          build_all-IsBalanced texts ids cfgs rest b'' b'
            (record_config-IsBalanced b b'' (checker_key kc) kc.1
              (assigned (checker_key kc) ids b.next)
              (config_of texts cfgs b.table (assigned (checker_key kc) ids b.next).0
                (checker_key kc))
              (λ t cfg. config_of-IsBalanced texts cfgs b.table t _ (checker_key kc) cfg h) went)
            (ground arith)
    ]

build_maps-IsBalanced :
    (texts : Texts) (h h' : Manager)
    → IsBalanced h.table
    → build_maps texts h ≡ some h'
    → IsBalanced h'.table
unfolding build_maps prune_marks
build_maps-IsBalanced texts h h' ok e =
    elim (Option-cases (
      build_all texts h.ids h.cfgs (all_checks [] h.vserver_checks)
        (record { table = h.table; next = h.next; ids = []; cfgs = []; checks = [] }))) [
          | inl stopped ↦ absurd (ground arith)
          | inr (b, built) ↦ ground (
            arith,
            prune-IsBalanced (λ key. some_uses_mark key b.checks) b.table.marks b.table
                (build_all-IsBalanced texts h.ids h.cfgs (all_checks [] h.vserver_checks) _ b ok
                  built),
          )
        ]

handle-IsBalanced :
    (texts : Texts) (h h' : Manager) (event : Event)
    → IsBalanced h.table
    → handle texts h event ≡ some h'
    → IsBalanced h'.table
unfolding handle update enable disable shutdown unmark_all_backends
handle-IsBalanced texts h h' (updated vserver none) ok e =
    build_maps-IsBalanced texts (set_checks h vserver none) h' ok e
handle-IsBalanced texts h h' (updated vserver (some checks)) ok e =
    build_maps-IsBalanced texts (set_checks h vserver (some checks)) h' ok e
handle-IsBalanced texts h h' enabled ok e = ground arith
handle-IsBalanced texts h h' disabled ok e = ground arith
handle-IsBalanced texts h h' quit ok e =
    ground (arith, prune-IsBalanced (λ key. false) h.table.marks h.table ok)

run-IsBalanced :
    (texts : Texts) (h h' : Manager) (events : List Event)
    → IsBalanced h.table
    → run texts h events ≡ some h'
    → IsBalanced h'.table
unfolding run
run-IsBalanced texts h h' [] ok e = ground arith
run-IsBalanced texts h h' (event ∷ rest) ok e = elim (Option-cases (handle texts h event)) [
  | inl stopped ↦ absurd (ground arith)
  | inr (h'', went) ↦
      run-IsBalanced texts h'' h' rest (handle-IsBalanced texts h h'' event ok went) (ground arith)
]

-- Whatever updates, enablings, disablings and quits a new healthcheck manager handles, in any order:
-- as long as its process runs, each firewall mark of its range is either free or that of exactly one
-- backend and mode, and no other mark is in use or free.
pub run-new_manager_marks :
    (texts : Texts) (pid : ℕ) (events : List Event) (h : Manager) (m : ℕ)
    → run texts (new_manager pid) events ≡ some h
    → uses m h.table.marks + occurrences m h.table.mark_alloc.marks
      ≡ (if leb dsr_mark_base m && ltb m (dsr_mark_base + dsr_mark_size) then 1 else 0)
unfolding new_manager new_mark_table
run-new_manager_marks texts pid events h m e =
    (run-IsBalanced texts (new_manager pid) h events
        (tt, λ k. Reach-new_mark_allocator dsr_mark_base dsr_mark_size k (omega arith) here) e).1
      m
