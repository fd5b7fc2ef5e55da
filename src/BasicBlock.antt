-- ===== src/BasicBlock.antt =====
-- include/dg/BBlock.h: the basic blocks of a dependence graph and the edges between them, over the sets of
-- include/dg/ADT/DGContainer.h. Blocks and nodes are named by numbers, and a store holds the blocks.
pub mod Edges
pub mod Added
pub mod Cut
pub mod Joined
pub mod Isolate
pub mod Labels
mod Examples
use cape_implementation.Prelude.{
  ℕ, zero, suc, ◌+◌, Bool, true, false, not, ◌||◌, ◌&&◌, Option, none, some, List, [], ◌∷◌, ◌++◌,
  ◌==◌, ltb, if◌then◌else◌, elem, insert, length, last?,
}
use cape_implementation.NodesWalk.Ids.{update}

-- `BBlockEdge`: the target and the label.
abbrev pub BlockEdge : Type 0
BlockEdge = ℕ × ℕ

abbrev pub same_edge : BlockEdge → BlockEdge → Bool
same_edge (t, l) (u, k) = t == u && l == k

-- `operator!=`
abbrev pub other_edge : BlockEdge → BlockEdge → Bool
other_edge e f = same_edge e f

abbrev pub less_edge : BlockEdge → BlockEdge → Bool
less_edge (t, l) (u, k) = if t == u then ltb l k else ltb t u

-- `DGContainer` of edges: `contains`, `insert` and `erase`.
abbrev pub has_edge : BlockEdge → List BlockEdge → Bool
has_edge e [] = false
has_edge e (f ∷ es) = same_edge f e || has_edge e es

abbrev pub place_edge : BlockEdge → List BlockEdge → List BlockEdge
place_edge e [] = e ∷ []
place_edge e (f ∷ es) = if less_edge e f then e ∷ f ∷ es else f ∷ place_edge e es

unfoldable pub insert_edge : BlockEdge → List BlockEdge → List BlockEdge
insert_edge e es = if has_edge e es then es else place_edge e es

unfoldable pub erase_edge : BlockEdge → List BlockEdge → List BlockEdge
erase_edge e [] = []
erase_edge e (f ∷ es) = let rest = erase_edge e es in if same_edge f e then rest else f ∷ rest

-- `EdgesContainer::erase`
unfoldable pub erase_block : ℕ → List ℕ → List ℕ
erase_block x [] = []
erase_block x (y ∷ ys) = let rest = erase_block x ys in if y == x then rest else y ∷ rest

pub record Block : Type 0 where
  pub nodes : List ℕ
  pub next : List BlockEdge
  pub prev : List ℕ
  pub control : List ℕ
  pub rev_control : List ℕ
  pub slice : ℕ

abbrev pub Store : Type 0
Store = ℕ → Block

unfoldable pub set_next : ℕ → List BlockEdge → Store → Store
set_next a es st = update st a (record (st a) { next = es })

unfoldable pub set_prev : ℕ → List ℕ → Store → Store
set_prev a xs st = update st a (record (st a) { prev = xs })

unfoldable pub append : ℕ → ℕ → Store → Store
append a n st = update st a (record (st a) { nodes = (st a).nodes ++ n ∷ [] })

unfoldable pub prepend : ℕ → ℕ → Store → Store
prepend a n st = update st a (record (st a) { nodes = n ∷ (st a).nodes })

unfoldable pub get_first_node : ℕ → Store → Option ℕ
get_first_node a st = elim (st a).nodes [ [] ↦ none | n ∷ _ ↦ some n ]

unfoldable pub get_last_node : ℕ → Store → Option ℕ
get_last_node a st = last? (st a).nodes

abbrev pub all_target : ℕ → List BlockEdge → Bool
all_target t [] = true
all_target t ((u, l) ∷ es) = u == t && all_target t es

unfoldable pub successors_are_same : ℕ → Store → Bool
successors_are_same a st = elim (st a).next [ [] ↦ true | e ∷ es ↦ all_target e.0 es ]

-- The answer tells whether the edge is new.
unfoldable pub add_successor : ℕ → BlockEdge → Store → Bool × Store
add_successor a (t, l) st =
    let s = set_next a (insert_edge (t, l) (st a).next) st in
    (not (has_edge (t, l) (st a).next), set_prev t (insert a (s t).prev) s)

unfoldable pub remove_successor : ℕ → BlockEdge → Store → Store
remove_successor a (t, l) st =
    let s = set_prev t (erase_block a (st t).prev) st in set_next a (erase_edge (t, l) (s a).next) s

unfoldable pub forget_successors : ℕ → List BlockEdge → Store → Store
forget_successors a [] st = st
forget_successors a ((t, l) ∷ es) st =
    forget_successors a es (set_prev t (erase_block a (st t).prev) st)

unfoldable pub remove_successors : ℕ → Store → Store
remove_successors a st = set_next a [] (forget_successors a (st a).next st)

unfoldable pub has_self_loop : ℕ → Store → Bool
has_self_loop a st = has_edge (a, 0) (st a).next

-- The edges to other targets, and how many are left out.
unfoldable pub other_targets : ℕ → List BlockEdge → ℕ × List BlockEdge
other_targets t [] = (0, [])
other_targets t ((u, l) ∷ es) =
    let rest = other_targets t es in
    if u == t then (suc rest.0, rest.1) else (rest.0, (u, l) ∷ rest.1)

unfoldable pub remove_successors_target : ℕ → ℕ → Store → ℕ × Store
remove_successors_target a t st =
    let rest = other_targets t (st a).next in (rest.0, set_next a rest.1 st)

unfoldable pub forget_predecessors : ℕ → List ℕ → Store → Store
forget_predecessors a [] st = st
forget_predecessors a (b ∷ bs) st =
    forget_predecessors a bs (set_next b (erase_edge (a, 0) (st b).next) st)

unfoldable pub remove_predecessors : ℕ → Store → Store
remove_predecessors a st = set_prev a [] (forget_predecessors a (st a).prev st)

unfoldable pub add_control_dependence : ℕ → ℕ → Store → Store
add_control_dependence a b st =
    let s = update st a (record (st a) { control = insert b (st a).control }) in
    update s b (record (s b) { rev_control = insert a (s b).rev_control })

-- `isolate`: the edges with the label to the successors, for the edges of a predecessor to the block.
unfoldable pub copy_edges : ℕ → ℕ → List BlockEdge → List BlockEdge → List BlockEdge
copy_edges x l [] new = new
copy_edges x l ((t, k) ∷ es) new =
    copy_edges x l es (if t == x then new else insert_edge (t, l) new)

-- The loop over the edges of a predecessor, with the new edges.
unfoldable pub cut_edges : ℕ → ℕ → List BlockEdge → List BlockEdge × Store → List BlockEdge × Store
cut_edges x p [] r = r
cut_edges x p ((t, l) ∷ es) (new, st) = cut_edges x p es (
    if t == x
    then (copy_edges x l (st x).next new, set_next p (erase_edge (t, l) (st p).next) st)
    else (new, st))

unfoldable pub add_successors : ℕ → List BlockEdge → Store → Store
add_successors p [] st = st
add_successors p (e ∷ es) st = add_successors p es (add_successor p e st).1

unfoldable pub reconnect : ℕ → ℕ → Store → Store
reconnect x p st = let r = cut_edges x p (st p).next ([], st) in add_successors p r.0 r.1

unfoldable pub reconnect_all : ℕ → List ℕ → Store → Store
reconnect_all x [] st = st
reconnect_all x (p ∷ ps) st = reconnect_all x ps (reconnect x p st)

unfoldable pub forget_control : ℕ → List ℕ → Store → Store
forget_control x [] st = st
forget_control x (b ∷ bs) st = forget_control x bs (
    if b == x
    then st
    else update st b (record (st b) { rev_control = erase_block x (st b).rev_control }))

unfoldable pub forget_rev_control : ℕ → List ℕ → Store → Store
forget_rev_control x [] st = st
forget_rev_control x (b ∷ bs) st =
    forget_rev_control x bs (
      if b == x then st else update st b (record (st b) { control = erase_block x (st b).control }))

unfoldable pub isolate : ℕ → Store → Store
isolate x st =
    let joined = reconnect_all x (st x).prev st in
    let cut = set_prev x [] (remove_successors x joined) in
    let s = forget_control x (cut x).control cut in
    let t = forget_rev_control x (s x).rev_control s in
    update t x (record (t x) { control = []; rev_control = [] })
