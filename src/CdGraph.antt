-- ===== src/CdGraph.antt =====
-- lib/ControlDependence/CDGraph.h, over the edges of include/dg/BBlockBase.h: the graph on which control
-- dependences are computed. The nodes are numbered from 1 on in the order in which they are created.
pub mod Build
use cape_implementation.Prelude.{
  ℕ, zero, suc, ◌-◌, Bool, true, false, Option, none, some, List, [], ◌∷◌, ◌++◌, ◌==◌, ltb,
  if◌then◌else◌, elem, insert, length, last?,
}
use cape_implementation.NodesWalk.Ids.{update}

pub record CdGraph : Type 0 where
  pub size : ℕ
  pub successors : ℕ → List ℕ
  pub predecessors : ℕ → List ℕ
  pub predicates : List ℕ

abbrev pub range : ℕ → ℕ → List ℕ
range s zero = []
range s (suc n) = s ∷ range (suc s) n

-- `nodes`, and the iteration over the graph.
abbrev pub node_numbers : CdGraph → List ℕ
node_numbers g = range 1 g.size

-- `CDGraph()`
unfoldable pub new_graph : CdGraph
new_graph = record { size = 0; successors = λ n. []; predecessors = λ n. []; predicates = [] }

unfoldable pub create_node : CdGraph → ℕ × CdGraph
create_node g = (suc g.size, record g { size = suc g.size })

unfoldable pub add_predecessor : ℕ → ℕ → CdGraph → CdGraph
add_predecessor n s g =
    if elem n (g.predecessors s)
    then g
    else record g { predecessors = update g.predecessors s (g.predecessors s ++ n ∷ []) }

-- `addSuccessor`
unfoldable pub add_edge : ℕ → ℕ → CdGraph → CdGraph
add_edge n s g =
    if elem s (g.successors n)
    then g
    else add_predecessor n s
        (record g { successors = update g.successors n (g.successors n ++ s ∷ []) })

unfoldable pub add_node_successor : ℕ → ℕ → CdGraph → CdGraph
add_node_successor n s g =
    let next = add_edge n s g in
    if ltb 1 (length (next.successors n))
    then record next { predicates = insert n next.predicates }
    else next

unfoldable pub single : List ℕ → Option ℕ
single xs = if length xs == 1 then last? xs else none

unfoldable pub get_single_successor : ℕ → CdGraph → Option ℕ
get_single_successor n g = single (g.successors n)

unfoldable pub get_single_predecessor : ℕ → CdGraph → Option ℕ
get_single_predecessor n g = single (g.predecessors n)

unfoldable pub is_predicate : ℕ → CdGraph → Bool
is_predicate n g = elem n g.predicates

-- `getNode`; out of range is `none`.
unfoldable pub get_node : ℕ → CdGraph → Option ℕ
get_node id g = if ltb 0 id then (if ltb (id - 1) g.size then some id else none) else none
