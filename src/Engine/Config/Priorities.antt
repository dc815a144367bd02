-- ===== src/Engine/Config/Priorities.antt =====
-- engine/config/config.go: the priorities that the nodes of a cluster are given.
use seesaw.Base.{
  ℕ, suc, ◌+◌, ◌-◌, ◌≤◌, ◌<◌, ◌≡◌, refl, ap, map, subst, Option, some, List, [], ◌∷◌, ◌++◌, arith,
  All, All-imp, length, length-append, Option-cases, inl, inr,
}
use seesaw.Engine.Config.Nodes.{
  HostStatus, PbHost, Node, set_priorities, new_node, make_nodes, add_nodes,
}

-- Each node has a higher priority than all that follow it, and none has priority zero.
abbrev pub IsDescending : List Node → Type 0
IsDescending [] = Unit
IsDescending (n ∷ nodes) =
    (0 < n.priority) × All (λ (m : Node). m.priority < n.priority) nodes × IsDescending nodes

-- The first node has the highest priority that there is.
abbrev pub StartsAtMost : List Node → Type 0
StartsAtMost [] = Unit
StartsAtMost (n ∷ nodes) = n.priority ≡ 255

abbrev pub without_priority : Node → Node
without_priority n = record n { priority = 0 }

set_priorities-same :
    (count i : ℕ) (nodes : List Node)
    → map without_priority (set_priorities count i nodes) ≡ map without_priority nodes
unfolding set_priorities
set_priorities-same count i [] = refl
set_priorities-same count i (n ∷ nodes) =
    ap (λ l. without_priority n ∷ l) (set_priorities-same count (i + 1) nodes)

set_priorities-StartsAtMost :
    (count : ℕ) (nodes : List Node) → StartsAtMost (set_priorities count 0 nodes)
unfolding set_priorities
set_priorities-StartsAtMost count [] = tt
set_priorities-StartsAtMost count (n ∷ nodes) = refl

set_priorities-below :
    (count i : ℕ) (nodes : List Node)
    → 0 < i
    → i + length nodes ≤ count
    → count ≤ 255
    → All (λ (m : Node). m.priority < suc (count - i)) (set_priorities count i nodes)
      × IsDescending (set_priorities count i nodes)
unfolding set_priorities
set_priorities-below count i [] pos fit small = (tt, tt)
set_priorities-below count i (n ∷ nodes) pos fit small =
    let (below, descending) =
      set_priorities-below count (i + 1) nodes (omega arith) (omega arith) small in
    let rest = set_priorities count (i + 1) nodes in
    (
      (
        ground arith,
        All-imp (λ m (h : m.priority < suc (count - (i + 1))). ground arith) rest below,
      ),
      (
        ground arith,
        All-imp (λ m (h : m.priority < suc (count - (i + 1))). ground arith) rest below,
        descending,
      ),
    )

set_priorities-IsDescending :
    (count : ℕ) (nodes : List Node)
    → length nodes ≡ count
    → count ≤ 255
    → IsDescending (set_priorities count 0 nodes)
unfolding set_priorities
set_priorities-IsDescending count [] size small = tt
set_priorities-IsDescending count (n ∷ nodes) size small =
    let (below, descending) =
      set_priorities-below count 1 nodes (omega arith) (omega arith) small in
    (
      omega arith,
      All-imp (λ m (h : m.priority < suc (count - 1)). ground arith) (set_priorities count 1 nodes)
          below,
      descending,
    )

length-set_priorities :
    (count i : ℕ) (nodes : List Node) → length (set_priorities count i nodes) ≡ length nodes
unfolding set_priorities
length-set_priorities count i [] = refl
length-set_priorities count i (n ∷ nodes) = omega (arith, length-set_priorities count (i + 1) nodes)

make_nodes-length :
    (parse : ℕ → Option ℕ) (sort : List Node → List Node) (status : HostStatus) (nodes : List Node)
    (ps : List PbHost) (made : List Node)
    → make_nodes parse sort status nodes ps ≡ some made
    → length made ≡ length nodes + length ps
unfolding make_nodes
make_nodes-length parse sort status nodes [] made h = ground arith
make_nodes-length parse sort status nodes (p ∷ ps) made h =
    let grown = length-append nodes (new_node parse sort status p ∷ []) in
    ground (
      arith,
      make_nodes-length parse sort status (nodes ++ new_node parse sort status p ∷ []) ps made,
    )

-- The nodes of a cluster of at most 255 nodes are those that are made of its protobuf, in the order of
-- the sorting, but for their priorities. The first one has priority 255, each has a higher one than all
-- that follow it, and none has priority zero.
pub add_nodes-IsDescending :
    (parse : ℕ → Option ℕ) (sort : List Node → List Node) (status : HostStatus) (ps : List PbHost)
    (nodes : List Node)
    → ((l : List Node) → length (sort l) ≡ length l)
    → length ps ≤ 255
    → add_nodes parse sort status ps ≡ some nodes
    → IsDescending nodes
      × (length nodes ≡ length ps)
      × StartsAtMost nodes
      × ((made : List Node) × (make_nodes parse sort status [] ps ≡ some made)
          × (map without_priority nodes ≡ map without_priority (sort made)))
unfolding add_nodes
add_nodes-IsDescending parse sort status ps nodes keeps small made =
    elim (Option-cases (make_nodes parse sort status [] ps)) [
      | inl e ↦ absurd (ground arith)
      | inr (l, e) ↦
          let size = make_nodes-length parse sort status [] ps l e in
          let same : set_priorities (length l) 0 (sort l) ≡ nodes = ground arith in
          subst
            (λ (k : List Node).
              IsDescending k
              × (length k ≡ length ps)
              × StartsAtMost k
              × ((made : List Node) × (make_nodes parse sort status [] ps ≡ some made)
                  × (map without_priority k ≡ map without_priority (sort made))))
            same
            (
              set_priorities-IsDescending (length l) (sort l) (keeps l) (omega arith),
              omega (arith, length-set_priorities (length l) 0 (sort l), keeps l),
              set_priorities-StartsAtMost (length l) (sort l),
              (l, e, set_priorities-same (length l) 0 (sort l)),
            )
    ]
