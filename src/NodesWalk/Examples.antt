-- ===== src/NodesWalk/Examples.antt =====
-- Tests and instances on a small graph: the walk goes from node 0 through the call 1 to the function 2, whose
-- uses are the call and another one, 3; node 4 is a data dependence.
use cape_implementation.Prelude.{
  ℕ, zero, suc, ◌<◌, ◌≡◌, ◌⊎◌, refl, arith, Bool, true, false, Option, none, some, List, [], ◌∷◌,
  elem, ◌==◌, if◌then◌else◌,
}
use cape_implementation.Queue.{fifo_push}
use cape_implementation.Queue.Once.{fifo_push-IsContainer}
use cape_implementation.NodesWalk.Ids.{enqueue, enqueue_all, Reached}
use cape_implementation.NodesWalk.{
  Graph, Kind, call_key, function_key, other_key, Walking, walk, walk_loop, after_visit, take_node,
  prepare, process_node, process_plain_edges, process_edges, process_edge, process_cd,
  process_blocks, run_stages, note_parent, skips, skips_call, skips_target, is_unmatched,
  entry_parent, enqueue_node, address_taken, process_bblock_cds, use_name,
}
use cape_implementation.NodesWalk.Follows.{may}
use cape_implementation.NodesWalk.Walk.{Fresh, Correct, Bounded, walk-Correct, walk_ends}
use cape_implementation.NodesWalk.Calls.{process_edges_return_to_caller}

abbrev kinds : ℕ → Kind
kinds zero = other_key
kinds (suc zero) = call_key
kinds (suc (suc zero)) = function_key
kinds (suc (suc (suc zero))) = call_key
kinds (suc (suc (suc (suc n)))) = other_key

abbrev controls : ℕ → List ℕ
controls zero = 1 ∷ []
controls (suc zero) = 2 ∷ []
controls (suc (suc n)) = []

abbrev data_of : ℕ → List ℕ
data_of zero = 4 ∷ []
data_of (suc n) = []

abbrev uses_of : ℕ → List ℕ
uses_of zero = []
uses_of (suc zero) = []
uses_of (suc (suc zero)) = 1 ∷ 3 ∷ []
uses_of (suc (suc (suc n))) = []

abbrev small_graph : Graph
small_graph = record {
  kind = kinds;
  control = controls;
  rev_control = λ n. [];
  data_edges = data_of;
  rev_data = λ n. [];
  uses = uses_of;
  users = λ n. [];
  interference = λ n. [];
  rev_interference = λ n. [];
  entry_of = λ n. none;
  stored_targets = λ n. [];
  is_secret = λ v. false;
  block_of = λ n. none;
  block_nodes = λ b. [];
  first_node = λ b. 0;
  last_node = λ b. 0;
  control_dependence = λ b. [];
  rev_control_dependence = λ b. [];
  successors = λ b. [];
  predecessors = λ b. [];
  post_dom_frontiers = λ b. [];
}

abbrev start : Walking
start = record {
  pending = record { last_walk = λ a. 0; queue = [] };
  parent = λ a. none;
  order = λ a. 0;
  last_order = 0;
  visited = [];
}

-- Each visit takes down its node.
abbrev note_visit : ℕ → List ℕ → Option (Bool × List ℕ × List ℕ)
note_visit n d = some (true, [], n ∷ d)

abbrev result : Option (Walking × List ℕ)
result = walk fifo_push small_graph note_visit 166 false 6 0 (0 ∷ []) (start, [])

abbrev state_of : Option (Walking × List ℕ) → Walking × List ℕ
state_of none = (start, [])
state_of (some r) = r

-- The other call is not visited.
result_visits : (state_of result).1 ≡ 2 ∷ 4 ∷ 1 ∷ 0 ∷ []
unfolding fifo_push walk walk_loop after_visit take_node prepare process_node process_plain_edges
    process_edges process_edge process_cd process_blocks process_bblock_cds run_stages note_parent
    skips skips_call skips_target is_unmatched entry_parent enqueue_node address_taken enqueue
    enqueue_all
result_visits = refl

start-Fresh : Fresh 0 start
start-Fresh = record {
  no_visit = refl;
  no_queue = refl;
  earlier = λ a. omega arith;
  no_wrap = omega arith;
}

walk-Correct_example :
    Correct fifo_push fifo_push-IsContainer small_graph note_visit 166 false
      (0 ∷ [])
      (state_of result).0
unfolding fifo_push walk walk_loop after_visit take_node prepare process_node process_plain_edges
    process_edges process_edge process_cd process_blocks process_bblock_cds run_stages note_parent
    skips skips_call skips_target is_unmatched entry_parent enqueue_node address_taken enqueue
    enqueue_all
walk-Correct_example =
    walk-Correct fifo_push fifo_push-IsContainer small_graph note_visit 166 false 6 0 (0 ∷ []) start
      [] (state_of result).0 (state_of result).1 start-Fresh refl

small_edges : (n x : ℕ) → n < 5 → elem x (may small_graph 166 n) ≡ true → x < 5
unfolding may
small_edges zero x p e = ground (arith, e)
small_edges (suc zero) x p e = ground (arith, e)
small_edges (suc (suc zero)) x p e = ground (arith, e)
small_edges (suc (suc (suc n))) x p e = absurd (ground (arith, e))

small_graph-Bounded :
    Bounded fifo_push fifo_push-IsContainer small_graph note_visit 166 false 5 (0 ∷ [])
small_graph-Bounded = record {
  entries_below = λ x e. ground (arith, e);
  edges_below = small_edges;
  visits_below = λ n x d e marked extra p v i. absurd (ground (arith, v, i));
}

walk_ends_example :
    (t : Walking) × (e : List ℕ) × (walk fifo_push small_graph note_visit 166 false 6 0
        (0 ∷ [])
        (start, [])
      ≡ some (t, e))
    × Correct fifo_push fifo_push-IsContainer small_graph note_visit 166 false (0 ∷ []) t
walk_ends_example =
    walk_ends fifo_push fifo_push-IsContainer small_graph note_visit 166 false 5 6 0 (0 ∷ []) start
      [] start-Fresh small_graph-Bounded (λ n c. ((true, [], n ∷ c), refl)) (omega arith)

abbrev the_call : ℕ
the_call = 1

-- Node 2 with the parent 1.
abbrev called : Walking
called = record start { parent = λ a. if a == 2 then some 1 else none }

process_edges_return_to_caller_example : Reached 1 1 called.pending ⊎ (the_call ≡ the_call)
unfolding fifo_push walk walk_loop after_visit take_node prepare process_node process_plain_edges
    process_edges process_edge process_cd process_blocks process_bblock_cds run_stages note_parent
    skips skips_call skips_target is_unmatched entry_parent enqueue_node address_taken enqueue
    enqueue_all
process_edges_return_to_caller_example =
    process_edges_return_to_caller small_graph fifo_push fifo_push-IsContainer 1 use_name 2 1
      (1 ∷ 3 ∷ []) called 1 refl refl refl
