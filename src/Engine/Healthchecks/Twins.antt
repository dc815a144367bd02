-- ===== src/Engine/Healthchecks/Twins.antt =====
-- engine/healthcheck.go: two checks of one update that need the same checker.
use seesaw.Base.{
  ℕ, ◌+◌, ◌*◌, ◌%◌, ◌≡◌, refl, sym, subst, ap, ◌∙◌, true, false, some, [], ◌∷◌, arith, u64,
  lookup_key, insert_key, lookup, insert, is_some, beq_refl,
}
use seesaw.Engine.Healthchecks.Keys.{
  same_checker_key, CheckKey, CheckerKey, plain, same_mode, same_key, dedup, checker_key_eq,
  check_key_eq,
}
use seesaw.Engine.Healthchecks.Marks.{new_mark_table, prune}
use seesaw.Engine.Healthchecks.Checkers.{
  Texts, Config, Checker, new_config, make_config, new_checker, port_of,
}
use seesaw.Engine.Healthchecks.Delivery.{build_maps-built, build_maps-enabled}
use seesaw.Engine.Healthchecks.Defs.{
  Check, Manager, Build, config_of, record_check, record_config, build_check, build_all, build_maps,
  prune_marks, all_checks, merge, checker_key, set_checks, update, listed, expire, expire_ids,
  notes_for, made, queue_notes, queue_health_state, new_manager, unknown_status,
}

-- A round for a checker that has no id yet, without marks.
build_check-new :
    (texts : Texts) (kc : CheckKey × Check) (b : Build) (checker : Checker)
    → same_mode kc.0.mode plain ≡ true
    → new_checker texts kc.0.mode kc.1.healthcheck kc.1.healthcheck.type ≡ some checker
    → (cfg : Config) × (build_check texts [] [] kc b
        ≡ some
            (record_check (record b { next = u64 (b.next + 1) }) (checker_key kc) b.next cfg kc.1))
unfolding build_check config_of record_config new_config make_config dedup
build_check-new texts kc b checker mode made = (
  record {
    id = b.next;
    checker = checker;
    target = record {
      ip = kc.0.backend_ip;
      host = kc.0.backend_ip;
      mark = 0;
      mode = kc.1.healthcheck.mode;
      port = port_of checker kc.1.healthcheck.port;
    };
    interval = kc.1.healthcheck.interval;
    timeout = kc.1.healthcheck.timeout;
    retries = kc.1.healthcheck.retries;
  },
  ground arith,
)

dedup-mode : (key : CheckKey) → (dedup key).mode ≡ key.mode
unfolding dedup
dedup-mode key = ground arith

-- What is built of two checks that are one checker, the first with the next id.
built : (kc kd : CheckKey × Check) (n : ℕ) (cfg cfg' : Config) → Build → Build
built kc kd n cfg cfg' b =
    record_check
      (record (record_check (record b { next = u64 (n + 1) }) (checker_key kc) n cfg kc.1) {
        next = u64 (u64 (n + 1) + 1);
      })
      (checker_key kd) (u64 (n + 1)) cfg' kd.1

build_all-twins :
    (texts : Texts) (kc kd : CheckKey × Check) (b : Build) (checker : Checker)
    → checker_key kc ≡ checker_key kd
    → same_mode kc.0.mode plain ≡ true
    → new_checker texts kc.0.mode kc.1.healthcheck kc.1.healthcheck.type ≡ some checker
    → (cfg : Config) × (cfg' : Config) × (build_all texts [] [] (kc ∷ kd ∷ []) b
        ≡ some (built kc kd b.next cfg cfg' b))
unfolding build_all built record_check
build_all-twins texts kc kd b checker twins mode made =
    let modes : kc.0.mode ≡ kd.0.mode =
      sym (dedup-mode kc.0) ∙ (ap (λ (k : CheckerKey). k.key.mode) twins ∙ dedup-mode kd.0) in
    let hcs : kc.1.healthcheck ≡ kd.1.healthcheck = ap (λ (k : CheckerKey). k.cfg) twins in
    let one = build_check-new texts kc b checker mode made in
    let two =
      build_check-new texts kd
        (record_check (record b { next = u64 (b.next + 1) }) (checker_key kc) b.next one.0 kc.1)
        checker (subst (λ m. same_mode m plain ≡ true) modes mode)
        (subst (λ hc. new_checker texts kd.0.mode hc hc.type ≡ some checker) hcs
          (subst (λ m. new_checker texts m kc.1.healthcheck kc.1.healthcheck.type ≡ some checker)
            modes made)) in
    (one.0, two.0, ground (arith, one.1, two.1))

-- The manager reads nothing but the configurations, the checks and the ids when it expires them.
expire-built :
    (h : Manager) (kc kd : CheckKey × Check) (n : ℕ) (cfg cfg' : Config)
    → checker_key kc ≡ checker_key kd
    → h.enabled ≡ true
    → h.ids ≡ insert_key (checker_key kd) (n + 1) (insert_key (checker_key kc) n [])
    → h.cfgs ≡ insert (n + 1) cfg' (insert n cfg [])
    → h.checks ≡ insert (n + 1) (kd.1 ∷ []) (insert n (kc.1 ∷ []) [])
    → (lookup_key (checker_key kc) h.ids ≡ some (n + 1))
      × (listed n h.checks ≡ kc.1 ∷ [])
      × (expire h [] ≡ queue_notes (notes_for unknown_status (kd.1 ∷ [])) [])
unfolding expire expire_ids queue_health_state made notes_for
expire-built h kc kd n cfg cfg' twins on ids cfgs checks =
    let same : same_checker_key (checker_key kc) (checker_key kd) ≡ true =
      subst (λ k. same_checker_key (checker_key kc) k ≡ true) twins (beq_refl (checker_key kc)) in
    let back : same_checker_key (checker_key kd) (checker_key kc) ≡ true =
      subst (λ k. same_checker_key k (checker_key kc) ≡ true) twins (beq_refl (checker_key kc)) in
    let only : h.ids ≡ (checker_key kd, n + 1) ∷ [] = ids ∙ rw (same) refl in
    let known : is_some (lookup (n + 1) h.cfgs) ≡ true = rw (cfgs) (ground arith) in
    let told : listed (n + 1) h.checks ≡ kd.1 ∷ [] = rw (checks) (ground arith) in
    (
      rw (only, back) refl,
      rw (checks) (ground arith),
      rw (expire, only, expire_ids, queue_health_state, made, on, known, told) refl,
    )

-- Suppose that a new healthcheck manager is updated with two checks whose keys differ, and which are
-- one checker after `dedup`, of the plain mode. Each gets an id of its own, the ids remember only the
-- second one, and a call of `expire` tells the second check alone that its state is unknown.
pub expire-update_twins :
    (texts : Texts) (pid vserver : ℕ) (kc kd : CheckKey × Check) (checker : Checker) (h : Manager)
    → same_key kc.0 kd.0 ≡ false
    → checker_key kc ≡ checker_key kd
    → same_mode kc.0.mode plain ≡ true
    → new_checker texts kc.0.mode kc.1.healthcheck kc.1.healthcheck.type ≡ some checker
    → update texts (new_manager pid) vserver (some (kc ∷ kd ∷ [])) ≡ some h
    → (lookup_key (checker_key kc) h.ids ≡ some ((pid % 65536) * 281474976710656 + 1))
      × (listed ((pid % 65536) * 281474976710656) h.checks ≡ kc.1 ∷ [])
      × (expire h [] ≡ queue_notes (notes_for unknown_status (kd.1 ∷ [])) [])
unfolding update build_maps all_checks merge new_manager prune_marks prune new_mark_table built
    record_check
expire-update_twins texts pid vserver kc kd checker h differ twins mode made e =
    let n : ℕ = (pid % 65536) * 281474976710656 in
    let start : Build = record {
      table = new_mark_table;
      next = n;
      ids = [];
      cfgs = [];
      checks = [];
    } in
    let b = build_all-twins texts kc kd start checker twins mode made in
    let all : all_checks [] ((vserver, kc ∷ kd ∷ []) ∷ []) ≡ kc ∷ kd ∷ [] = ground arith in
    let went : build_all texts [] [] (all_checks [] ((vserver, kc ∷ kd ∷ []) ∷ [])) start
        ≡ some (built kc kd n b.0 b.1 start) =
      rw (all) b.2 in
    let small : u64 (n + 1) ≡ n + 1 = omega arith in
    let g = set_checks (new_manager pid) vserver (some (kc ∷ kd ∷ [])) in
    let same = build_maps-built texts g h (built kc kd n b.0 b.1 start) went e in
    expire-built h kc kd n b.0 b.1 twins (build_maps-enabled texts g h e) (same.0 ∙ rw (small) refl)
      (same.1 ∙ rw (small) refl) (same.2 ∙ ground arith)
