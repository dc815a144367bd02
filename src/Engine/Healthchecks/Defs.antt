-- ===== src/Engine/Healthchecks/Defs.antt =====
-- engine/healthcheck.go: `healthcheckManager`.
use seesaw.Base.{
  ℕ, ◌+◌, ◌*◌, ◌%◌, Bool, true, false, not, ◌&&◌, ◌||◌, Option, none, some, List, [], ◌∷◌, ◌++◌,
  if◌then◌else◌, u64, lookup_key, insert_key, lookup, insert, remove, is_some, ltb, length,
}
use seesaw.Healthcheck.Check.Defs
use seesaw.Engine.Healthchecks.Keys.{
  CheckKey, CheckerKey, Healthcheck, MarkKey, plain, same_mode, same_mark_key, dedup, check_key_eq,
  checker_key_eq,
}
use seesaw.Engine.Healthchecks.Marks.{MarkTable, new_mark_table, prune, unmark_all_backends}
use seesaw.Engine.Healthchecks.Checkers.{Texts, Config, mark_key, new_config}

-- `check`, by what the manager reads of it; a vserver is its number.
pub record Check : Type 0 where
  pub key : CheckKey
  pub vserver : ℕ
  pub healthcheck : Healthcheck

abbrev pub Checks : Type 0
Checks = List (CheckKey × Check)

pub record Manager : Type 0 where
  pub table : MarkTable
  pub next : ℕ
  pub vserver_checks : List (ℕ × Checks)
  pub cfgs : List (ℕ × Config)
  pub checks : List (ℕ × List Check)
  pub ids : List (CheckerKey × ℕ)
  pub enabled : Bool

-- `newHealthcheckManager`, in a process of the given id.
unfoldable pub new_manager : ℕ → Manager
new_manager pid = record {
  table = new_mark_table;
  next = (pid % 65536) * 281474976710656;
  vserver_checks = [];
  cfgs = [];
  checks = [];
  ids = [];
  enabled = true;
}

-- `configs`; `none` is nil.
unfoldable pub configs : Manager → Option (List (ℕ × Config))
configs h = if h.enabled then some h.cfgs else none

abbrev pub add_check : CheckKey × Check → Checks → Checks
add_check (k, c) all = if is_some (lookup_key k all) then all else all ++ (k, c) ∷ []

-- The first loop of `buildMaps`: of a key that two vservers have, one check is kept.
unfoldable pub merge : Checks → Checks → Checks
merge all [] = all
merge all (kc ∷ rest) = merge (add_check kc all) rest

unfoldable pub all_checks : Checks → List (ℕ × Checks) → Checks
unfolding merge
all_checks all [] = all
all_checks all ((name, vchecks) ∷ rest) = all_checks (merge all vchecks) rest

-- What the second loop builds.
pub record Build : Type 0 where
  pub table : MarkTable
  pub next : ℕ
  pub ids : List (CheckerKey × ℕ)
  pub cfgs : List (ℕ × Config)
  pub checks : List (ℕ × List Check)

abbrev pub checker_key : CheckKey × Check → CheckerKey
checker_key (key, c) = record { key = dedup key; cfg = c.healthcheck }

abbrev pub listed : ℕ → List (ℕ × List Check) → List Check
listed id checks = elim (lookup id checks) [ none ↦ [] | some cs ↦ cs ]

unfoldable pub record_check : Build → CheckerKey → ℕ → Config → Check → Build
record_check b ckey id cfg c = record b {
  ids = insert_key ckey id b.ids;
  cfgs = insert id cfg b.cfgs;
  checks = insert id (listed id b.checks ++ c ∷ []) b.checks;
}

-- The configuration of an id: the old one, or a new one.
unfoldable pub config_of :
    Texts → List (ℕ × Config) → MarkTable → ℕ → CheckerKey → Option (MarkTable × Option Config)
config_of texts cfgs t id ckey = elim (lookup id cfgs) [
  | some cfg ↦ some (t, some cfg)
  | none ↦ new_config texts t id ckey.key ckey.cfg
]

-- The id of a checker, and the next free one.
abbrev pub assigned : CheckerKey → List (CheckerKey × ℕ) → ℕ → ℕ × ℕ
assigned ckey ids next = elim (lookup_key ckey ids) [
  | none ↦ (next, u64 (next + 1))
  | some id ↦ (id, next)
]

-- The rest of a round, with the configuration or its error; `none` ends the process.
unfoldable pub record_config :
    Build → CheckerKey → Check → ℕ × ℕ → Option (MarkTable × Option Config) → Option Build
unfolding record_check
record_config b ckey c (id, next) none = none
record_config b ckey c (id, next) (some (t, none)) = some (record b { table = t; next = next })
record_config b ckey c (id, next) (some (t, some cfg)) =
    some (record_check (record b { table = t; next = next }) ckey id cfg c)

-- One round of the second loop, with `h.ids` and `h.cfgs` as they were before.
unfoldable pub build_check :
    Texts → List (CheckerKey × ℕ) → List (ℕ × Config) → CheckKey × Check → Build → Option Build
unfolding config_of record_config
build_check texts ids cfgs kc b =
    let ckey = checker_key kc in
    let a = assigned ckey ids b.next in
    record_config b ckey kc.1 a (config_of texts cfgs b.table a.0 ckey)

unfoldable pub build_all :
    Texts → List (CheckerKey × ℕ) → List (ℕ × Config) → Checks → Build → Option Build
unfolding build_check
build_all texts ids cfgs [] b = some b
build_all texts ids cfgs (kc ∷ rest) b = elim (build_check texts ids cfgs kc b) [
  | none ↦ none
  | some b' ↦ build_all texts ids cfgs rest b'
]

-- The set `backends` of `pruneMarks`.
unfoldable pub uses_mark : MarkKey → List Check → Bool
uses_mark key [] = false
uses_mark key (c ∷ cs) =
    (not (same_mode c.key.mode plain) && same_mark_key (mark_key c.key) key) || uses_mark key cs

unfoldable pub some_uses_mark : MarkKey → List (ℕ × List Check) → Bool
unfolding uses_mark
some_uses_mark key [] = false
some_uses_mark key ((id, cs) ∷ rest) = uses_mark key cs || some_uses_mark key rest

unfoldable pub prune_marks : List (ℕ × List Check) → MarkTable → MarkTable
prune_marks checks t = prune (λ key. some_uses_mark key checks) t.marks t

-- `buildMaps`
unfoldable pub build_maps : Texts → Manager → Option Manager
unfolding build_all prune_marks
build_maps texts h =
    let start : Build = record {
      table = h.table;
      next = h.next;
      ids = [];
      cfgs = [];
      checks = [];
    } in
    elim (build_all texts h.ids h.cfgs (all_checks [] h.vserver_checks) start) [
      | none ↦ none
      | some b ↦ some (record h {
        table = prune_marks b.checks b.table;
        next = b.next;
        cfgs = b.cfgs;
        checks = b.checks;
        ids = b.ids;
      })
    ]

-- `update`; `none` for the checks is nil.
abbrev pub set_checks : Manager → ℕ → Option Checks → Manager
set_checks h vserver none = record h { vserver_checks = remove vserver h.vserver_checks }
set_checks h vserver (some checks) = record h {
  vserver_checks = insert vserver checks h.vserver_checks;
}

unfoldable pub update : Texts → Manager → ℕ → Option Checks → Option Manager
unfolding build_maps
update texts h vserver checks = build_maps texts (set_checks h vserver checks)

unfoldable pub enable : Manager → Manager
enable h = record h { enabled = true }

unfoldable pub disable : Manager → Manager
disable h = record h { enabled = false }

-- The quit branch of `run`.
unfoldable pub shutdown : Manager → Manager
shutdown h = record h { table = unmark_all_backends h.table }

-- A `checkNotification` and the vserver that it is queued for; the description is the checker's text.
pub record Note : Type 0 where
  pub vserver : ℕ
  pub key : CheckKey
  pub status : Defs.Status

unfoldable pub notes_for : Defs.Status → List Check → List Note
notes_for st [] = []
notes_for st (c ∷ cs) = record { vserver = c.vserver; key = c.key; status = st } ∷ notes_for st cs

-- The notifications that `queueHealthState` makes.
unfoldable pub made : Manager → Defs.Notification → List Note
unfolding notes_for
made h n =
    if not h.enabled
    then []
    else if is_some (lookup n.id h.cfgs)
    then notes_for n.status (listed n.id h.checks)
    else []

-- The notifications that wait in the channel of each vserver.
abbrev pub Queues : Type 0
Queues = List (ℕ × List Note)

abbrev pub queue_of : ℕ → Queues → List Note
queue_of vserver queues = elim (lookup vserver queues) [ none ↦ [] | some q ↦ q ]

abbrev pub notify_size : ℕ
notify_size = 1000

-- `queueCheckNotification`
unfoldable pub queue_check_notification : Note → Queues → Queues
queue_check_notification note queues =
    let q = queue_of note.vserver queues in
    if ltb (length q) notify_size then insert note.vserver (q ++ note ∷ []) queues else queues

unfoldable pub queue_notes : List Note → Queues → Queues
unfolding queue_check_notification
queue_notes [] queues = queues
queue_notes (note ∷ notes) queues = queue_notes notes (queue_check_notification note queues)

-- `queueHealthState`
unfoldable pub queue_health_state : Manager → Defs.Notification → Queues → Queues
unfolding made queue_notes
queue_health_state h n queues = queue_notes (made h n) queues

abbrev pub unknown_status : Defs.Status
unknown_status = record {
  last_check = 0;
  duration = 0;
  failures = 0;
  successes = 0;
  state = Defs.unknown;
  message = 0;
}

unfoldable pub expire_ids : Manager → List (CheckerKey × ℕ) → Queues → Queues
unfolding queue_health_state
expire_ids h [] queues = queues
expire_ids h ((ckey, id) ∷ rest) queues =
    expire_ids h rest (queue_health_state h (record { id = id; status = unknown_status }) queues)

-- `expire`
unfoldable pub expire : Manager → Queues → Queues
unfolding expire_ids
expire h queues = expire_ids h h.ids queues

pub data Event : Type 0 where
  updated : ℕ → Option Checks → Event
  enabled disabled quit : Event

-- One event, as `run` handles it; it goes on after a quit. `none` ends the process.
unfoldable pub handle : Texts → Manager → Event → Option Manager
unfolding update enable disable shutdown
handle texts h (updated vserver checks) = update texts h vserver checks
handle texts h enabled = some (enable h)
handle texts h disabled = some (disable h)
handle texts h quit = some (shutdown h)

unfoldable pub run : Texts → Manager → List Event → Option Manager
unfolding handle
run texts h [] = some h
run texts h (event ∷ rest) = elim (handle texts h event) [
  | none ↦ none
  | some h' ↦ run texts h' rest
]
