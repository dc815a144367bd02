-- ===== src/Engine/Healthchecks/Marks.antt =====
-- engine/healthcheck.go: the firewall marks of backends that are checked through DSR or TUN.
use seesaw.Base.{
  ℕ, ◌/◌, Bool, false, Option, none, some, List, [], ◌∷◌, ◌++◌, ◌==◌, if◌then◌else◌, lookup_key,
  insert_key, remove_key,
}
use seesaw.Engine.Marks.Defs.{MarkAllocator, put, get, new_mark_allocator}
use seesaw.Engine.Vserver.Data.{Af, ipv4, ipv6, Forward, route, tunnel}
use seesaw.Engine.Healthchecks.Keys.{MarkKey, HealthcheckMode, tun, mark_key_eq}

-- `IP.AF`, of the number of 16 bytes: an IPv4 address stands below ::ffff:0:0.
unfoldable pub address_family : ℕ → Af
address_family ip = if ip / 4294967296 == 0xffff then ipv4 else ipv6

-- The IPVS service for a mark, with its one destination; scheduler "rr", protocol and port 0, weight 1.
pub record MarkService : Type 0 where
  pub address : Af
  pub firewall_mark : ℕ
  pub destination : ℕ
  pub flags : Forward

pub data MarkOp : Type 0 where
  service_added service_deleted : MarkService → MarkOp

pub record MarkTable : Type 0 where
  pub mark_alloc : MarkAllocator
  pub marks : List (MarkKey × ℕ)
  pub ops : List MarkOp

abbrev pub dsr_mark_base : ℕ
dsr_mark_base = 65536

abbrev pub dsr_mark_size : ℕ
dsr_mark_size = 16000

abbrev pub forward_mode : HealthcheckMode → Forward
forward_mode tun = tunnel
forward_mode _ = route

unfoldable pub mark_service : MarkKey → ℕ → MarkService
unfolding address_family
mark_service key mark = record {
  address = address_family key.backend;
  firewall_mark = mark;
  destination = key.backend;
  flags = forward_mode key.mode;
}

-- `markBackend`; `none` is its `log.Fatal`.
unfoldable pub mark_backend : MarkTable → MarkKey → Option (MarkTable × ℕ)
mark_backend t key = elim (lookup_key key t.marks) [
  | some mark ↦ some (t, mark)
  | none ↦ elim (get t.mark_alloc) [
    | none ↦ none
    | some (mark, ma) ↦ some (
      record {
        mark_alloc = ma;
        marks = insert_key key mark t.marks;
        ops = t.ops ++ service_added (mark_service key mark) ∷ [];
      },
      mark,
    )
  ]
]

-- `unmarkBackend`
unfoldable pub unmark_backend : MarkTable → MarkKey → MarkTable
unmark_backend t key = elim (lookup_key key t.marks) [
  | none ↦ t
  | some mark ↦ record {
    mark_alloc = put t.mark_alloc mark;
    marks = remove_key key t.marks;
    ops = t.ops ++ service_deleted (mark_service key mark) ∷ [];
  }
]

-- The loop of `pruneMarks` over the keys of `h.marks`, with the set of backends in use.
unfoldable pub prune : (MarkKey → Bool) → List (MarkKey × ℕ) → MarkTable → MarkTable
unfolding unmark_backend
prune in_use [] t = t
prune in_use ((key, mark) ∷ rest) t =
    prune in_use rest (if in_use key then t else unmark_backend t key)

-- `unmarkAllBackends`
unfoldable pub unmark_all_backends : MarkTable → MarkTable
unfolding prune
unmark_all_backends t = prune (λ key. false) t.marks t

unfoldable pub new_mark_table : MarkTable
new_mark_table = record {
  mark_alloc = new_mark_allocator dsr_mark_base dsr_mark_size;
  marks = [];
  ops = [];
}
