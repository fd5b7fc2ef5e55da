-- ===== src/WalkAndMark/Examples.antt =====
-- The first pass over a small program.
use cape_implementation.Prelude.{
  ℕ, ◌+◌, ◌*◌, ◌<◌, ◌≡◌, refl, arith, true, false, none, some, List, [], ◌∷◌, ◌==◌, ==_iff, elem,
  if◌then◌else◌, ltb,
}
use cape_implementation.Sample.{sample, sample_dependences, marked_with}
use cape_implementation.Sample.Shape.{few, depth, depth-IsForest}
use cape_implementation.Marking.{Accesses, Marking}
use cape_implementation.NodesWalk.{Graph, other_key, Walking}
use cape_implementation.NodesWalk.Follows.{may}
use cape_implementation.NodesWalk.Walk.{Fresh}
use cape_implementation.WalkAndMark.{mark, walk_options}
use cape_implementation.WalkAndMark.Marks.{Marked}
use cape_implementation.WalkAndMark.Ends.{Finite, mark_ends}

abbrev block_nodes_of : ℕ → List ℕ
block_nodes_of b = if ltb b 4 then (2 * b) ∷ (2 * b + 1) ∷ [] else []

abbrev no_accesses : Accesses
no_accesses = record {
  is_instruction = λ n. true;
  access = λ n. none;
  builtin = λ n. none;
  points_to = λ n op. [];
  operand = λ n op. 3;
  rev_data = λ n. [];
  users = λ n. [];
  nodes_of = block_nodes_of;
  graph_of = λ n. some 0;
  entry = λ g. 0;
  is_conditional = λ n. n == 3;
  forward = true;
}

-- Node 3 controls node 4, which node 5 uses.
abbrev node_graph : Graph
node_graph = record {
  kind = λ n. other_key;
  control = λ n. if n == 3 then 4 ∷ [] else [];
  rev_control = λ n. [];
  data_edges = λ n. if n == 4 then 5 ∷ [] else [];
  rev_data = λ n. [];
  uses = λ n. [];
  users = λ n. [];
  interference = λ n. [];
  rev_interference = λ n. [];
  entry_of = λ n. none;
  stored_targets = λ n. [];
  is_secret = λ v. false;
  block_of = λ n. none;
  block_nodes = λ b. [];
  first_node = λ b. 0;
  last_node = λ b. 0;
  control_dependence = λ b. [];
  rev_control_dependence = λ b. [];
  successors = λ b. [];
  predecessors = λ b. [];
  post_dom_frontiers = λ b. [];
}

abbrev unmarked : Marking
unmarked = record {
  state = marked_with 0;
  buffers = record { alloc_id = 0; buffer = λ t. 0; node_slice = λ n. 0; hooks = [] };
  graph_slice = λ g. 0;
  enqueued = [];
  marked_blocks = [];
}

abbrev at_start : Walking
at_start = record {
  pending = record { last_walk = λ a. 0; queue = [] };
  parent = λ a. none;
  order = λ a. 0;
  last_order = 0;
  visited = [];
}

at_start-Fresh : Fresh 0 at_start
at_start-Fresh = record {
  no_visit = refl;
  no_queue = refl;
  earlier = λ a. omega arith;
  no_wrap = omega arith;
}

block_nodes-below : (b x : ℕ) → elem x (block_nodes_of b) ≡ true → x < 8
block_nodes-below b x e = ground (arith, e, ==_iff (2 * b) x, ==_iff (2 * b + 1) x)

sample-Finite : Finite sample no_accesses 8 4 depth
sample-Finite = record {
  nodes_below = block_nodes-below;
  entries_below = λ f. omega arith;
  forest = depth-IsForest;
  few_blocks = few;
}

edges-below : (n x : ℕ) → n < 8 → elem x (may node_graph (walk_options true) n) ≡ true → x < 8
unfolding may walk_options
edges-below n x p e = ground (arith, e)

mark_ends_example :
    (last : ℕ) × (after : Walking) × (t : Marking) × (mark sample sample_dependences no_accesses
        node_graph 0 5 9 0
        (3 ∷ [])
        1
        0
        (at_start, unmarked)
      ≡ some (last, after, t))
    × Marked sample sample_dependences no_accesses node_graph 5 1
        (3 ∷ [])
        unmarked.state.node_slice
        (after, t)
mark_ends_example =
    mark_ends sample sample_dependences no_accesses 8 4 depth sample-Finite node_graph 9 0 1 0
      (3 ∷ []) at_start unmarked at_start-Fresh (λ x e. ground (arith, e)) edges-below (omega arith)
      (omega arith)
