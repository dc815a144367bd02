-- ===== src/Engine/Marks/Defs.antt =====
-- engine/core.go: `markAllocator`.
use seesaw.Base.{ℕ, zero, suc, ◌+◌, Option, none, some, List, [], ◌∷◌, ◌++◌, u32}

pub record MarkAllocator : Type 0 where
  pub marks : List ℕ

abbrev pub fwm_alloc_base : ℕ
fwm_alloc_base = 256

abbrev pub fwm_alloc_size : ℕ
fwm_alloc_size = 8000

-- `put`
unfoldable pub put : MarkAllocator → ℕ → MarkAllocator
put ma mark = record { marks = ma.marks ++ mark ∷ [] }

-- `get`; `none` is "allocator exhausted".
unfoldable pub get : MarkAllocator → Option (ℕ × MarkAllocator)
get ma = elim (ma.marks) [ [] ↦ none | mark ∷ rest ↦ some (mark, record { marks = rest }) ]

-- The loop of `newMarkAllocator`, with `n` rounds left from `i` on.
unfoldable pub put_range : ℕ → ℕ → ℕ → MarkAllocator → MarkAllocator
unfolding put
put_range zero base i ma = ma
put_range (suc n) base i ma = put_range n base (i + 1) (put ma (u32 (base + i)))

unfoldable pub new_mark_allocator : ℕ → ℕ → MarkAllocator
unfolding put_range
new_mark_allocator base size = put_range size base 0 (record { marks = [] })
