-- ===== src/Engine/Marks/Allocation.antt =====
-- engine/core.go: how marks move between the allocator and the vservers.
use seesaw.Base.{
  ℕ, zero, suc, ◌+◌, ◌≤◌, ◌≡◌, refl, ◌∙◌, some, List, [], ◌∷◌, ◌++◌, arith, count, leb, ltb, ◌==◌,
  ◌&&◌, if◌then◌else◌, u32,
}
use seesaw.Engine.Marks.Defs.{MarkAllocator, put, get, put_range, new_mark_allocator}

-- How often a mark stands in a list.
abbrev pub occurrences : ℕ → List ℕ → ℕ
occurrences k = count (λ m. m == k)

pub occurrences-append :
    (k : ℕ) (xs ys : List ℕ) → occurrences k (xs ++ ys) ≡ occurrences k xs + occurrences k ys
occurrences-append k [] ys = omega arith
occurrences-append k (x ∷ xs) ys = ground (arith, occurrences-append k xs ys)

-- The marks that the vservers hold, and the allocator. A vserver returns a mark that it holds.
pub data Step : List ℕ × MarkAllocator → List ℕ × MarkAllocator → Type 0 where
  allocated :
      {held : List ℕ} {ma ma' : MarkAllocator}
      → (mark : ℕ) → get ma ≡ some (mark, ma')
      → Step (held, ma) (mark ∷ held, ma')
  returned :
      {ma : MarkAllocator}
      → (before after : List ℕ) (mark : ℕ)
      → Step (before ++ mark ∷ after, ma) (before ++ after, put ma mark)

pub data Reach (s : List ℕ × MarkAllocator) : List ℕ × MarkAllocator → Type 0 where
  here : Reach s s
  next : {t u : List ℕ × MarkAllocator} → Reach s t → Step t u → Reach s u

abbrev pub total : ℕ → List ℕ × MarkAllocator → ℕ
total k (held, ma) = occurrences k held + occurrences k ma.marks

get-total :
    (k : ℕ) (held : List ℕ) (ma ma' : MarkAllocator) (mark : ℕ)
    → get ma ≡ some (mark, ma')
    → total k (mark ∷ held, ma') ≡ total k (held, ma)
unfolding get
get-total k held ma ma' mark e = ground arith

Step-total : (k : ℕ) (s t : List ℕ × MarkAllocator) → Step s t → total k t ≡ total k s
unfolding put
Step-total k _ _ (allocated {held} {ma} {ma'} mark e) = get-total k held ma ma' mark e
Step-total k _ _ (returned {ma} before after mark) = ground (
  arith,
  occurrences-append k before after,
  occurrences-append k before (mark ∷ after),
  occurrences-append k ma.marks (mark ∷ []),
)

Reach-total : (k : ℕ) {s t : List ℕ × MarkAllocator} → Reach s t → total k t ≡ total k s
Reach-total k here = refl
Reach-total k (next {t} {u} r st) = Step-total k t u st ∙ Reach-total k r

pub put_range-occurrences :
    (k n base i : ℕ) (ma : MarkAllocator)
    → base + (i + n) ≤ 4294967296
    → occurrences k (put_range n base i ma).marks
      ≡ occurrences k ma.marks + (if leb (base + i) k && ltb k (base + (i + n)) then 1 else 0)
unfolding put_range put
put_range-occurrences k zero base i ma h = ground arith
put_range-occurrences k (suc n) base i ma h = ground (
  arith,
  put_range-occurrences k n base (i + 1) (put ma (u32 (base + i))) (omega arith),
  occurrences-append k ma.marks (u32 (base + i) ∷ []),
)

-- Whatever marks are allocated and returned, in any order, each mark of the allocator's range is at
-- every moment either free or held by exactly one vserver, and no other mark exists: none is handed
-- out twice, and none is lost. The range must lie below 2^32.
pub Reach-new_mark_allocator :
    (base size k : ℕ) {held : List ℕ} {ma : MarkAllocator}
    → base + size ≤ 4294967296
    → Reach ([], new_mark_allocator base size) (held, ma)
    → occurrences k held + occurrences k ma.marks
      ≡ (if leb base k && ltb k (base + size) then 1 else 0)
unfolding new_mark_allocator
Reach-new_mark_allocator base size k h r = ground (
  arith,
  Reach-total k r,
  put_range-occurrences k size base 0 (record { marks = [] }) (omega arith),
)
