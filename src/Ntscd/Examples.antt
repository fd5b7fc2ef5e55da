-- ===== src/Ntscd/Examples.antt =====
-- A graph of six nodes: 1 and 2 lead to one another, 3 to 1 and 4, 4 to itself, and 5 to 3 and 6.
use cape_implementation.Prelude.{
  ℕ, ◌<◌, ◌≤◌, ◌≡◌, ◌↔◌, refl, sym, subst, arith, true, ◌||◌, ◌&&◌, ◌==◌, List, [], ◌∷◌, elem,
  Option, none, some,
}
use cape_implementation.CdGraph.{
  CdGraph, node_numbers, new_graph, create_node, add_node_successor, add_edge, add_predecessor,
}
use cape_implementation.CdGraph.Build.{
  IsGraph, new_graph-IsGraph, create_node-IsGraph, add_node_successor-IsGraph,
}
use cape_implementation.Ntscd.{
  Dependence, compute, compute_targets, compute_target, color_target, color_loop, round,
  visit_frontier, visit, insert_uncolored, note_predicates, note_dependence, no_dependence,
  count_all, count_targets, count_target, count_search, count_down, decrement, start_info,
}
use cape_implementation.Queue.{lifo_push}
use cape_implementation.Ntscd.Inevitable.{Controls}
use cape_implementation.Ntscd.Whole.{compute_correct}

abbrev six_nodes : CdGraph
six_nodes =
    (create_node
      (create_node (create_node (create_node (create_node (create_node new_graph).1).1).1).1).1).1

six_nodes-IsGraph : IsGraph six_nodes
six_nodes-IsGraph = create_node-IsGraph _ (
    create_node-IsGraph _ (
      create_node-IsGraph _
        (create_node-IsGraph _ (create_node-IsGraph _ (create_node-IsGraph _ new_graph-IsGraph)))))

abbrev with_edges : List (ℕ × ℕ) → CdGraph → CdGraph
with_edges [] g = g
with_edges ((n, s) ∷ es) g = with_edges es (add_node_successor n s g)

abbrev edges : List (ℕ × ℕ)
edges = (1, 2) ∷ (2, 1) ∷ (3, 1) ∷ (3, 4) ∷ (4, 4) ∷ (5, 3) ∷ (5, 6) ∷ []

abbrev small : CdGraph
small = with_edges edges six_nodes

abbrev Within : ℕ → List (ℕ × ℕ) → Type 0
Within k [] = Unit
Within k ((n, s) ∷ es) = ((0 < n) × (n ≤ k)) × ((0 < s) × (s ≤ k)) × Within k es

same_size : (n s : ℕ) (g : CdGraph) → (add_node_successor n s g).size ≡ g.size
unfolding add_node_successor add_edge add_predecessor
same_size n s g = ground arith

with_edges-IsGraph :
    (es : List (ℕ × ℕ)) (g : CdGraph) → IsGraph g → Within g.size es → IsGraph (with_edges es g)
with_edges-IsGraph [] g h w = h
with_edges-IsGraph ((n, s) ∷ es) g h w =
    with_edges-IsGraph es (add_node_successor n s g) (add_node_successor-IsGraph n s g h w.0 w.1).0
      (subst (λ k. Within k es) (sym (same_size n s g)) w.2)

six : six_nodes.size ≡ 6
unfolding create_node new_graph
six = refl

small-IsGraph : IsGraph small
small-IsGraph =
    with_edges-IsGraph edges six_nodes six_nodes-IsGraph
      (subst (λ k. Within k edges) (sym six) (omega arith))

small_size : small.size ≡ 6
unfolding create_node new_graph add_node_successor add_edge add_predecessor
small_size = refl

one_edge : ((0 < 1) × (1 ≤ six_nodes.size)) × ((0 < 2) × (2 ≤ six_nodes.size))
one_edge = omega (arith, six)

add_node_successor-IsGraph_example :
    IsGraph (add_node_successor 1 2 six_nodes)
    × ((p x : ℕ)
        → elem x ((add_node_successor 1 2 six_nodes).successors p)
          ≡ (elem x (six_nodes.successors p) || (1 == p && 2 == x)))
add_node_successor-IsGraph_example =
    add_node_successor-IsGraph 1 2 six_nodes six_nodes-IsGraph one_edge.0 one_edge.1

compute_correct_example :
    (out : Dependence) × (compute small 20 ≡ some out)
    × ((n p : ℕ)
        → (elem p (out.cd n) ≡ true) ↔ (
            (elem n (node_numbers small) ≡ true)
            × (elem p small.predicates ≡ true)
            × Controls small p n))
    × ((n p : ℕ) → elem n (out.rev_cd p) ≡ elem p (out.cd n))
compute_correct_example = compute_correct small small-IsGraph 20 (omega (arith, small_size))

abbrev on_first : Option Dependence → List ℕ
on_first none = []
on_first (some r) = r.cd 1

-- Node 3 can avoid node 1 by node 4.
first_depends : on_first (compute small 20) ≡ 3 ∷ []
unfolding create_node new_graph add_node_successor add_edge add_predecessor compute compute_targets
    compute_target color_target color_loop round visit_frontier visit insert_uncolored
    note_predicates note_dependence no_dependence
first_depends = refl

-- The counters take 3 for colored, since node 1 is queued twice, and so let node 1 depend on 5.
first_counted : on_first (count_all small 20) ≡ 3 ∷ 5 ∷ []
unfolding create_node new_graph add_node_successor add_edge add_predecessor count_all count_targets
    count_target count_search count_down decrement start_info note_predicates note_dependence
    no_dependence lifo_push
first_counted = refl
