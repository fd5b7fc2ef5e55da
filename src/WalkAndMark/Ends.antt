-- ===== src/WalkAndMark/Ends.antt =====
-- The first pass returns.
use cape_implementation.Prelude.{
  ℕ, ◌+◌, ◌<◌, ◌≡◌, subst, refl, sym, ap, ◌∙◌, Bool-cases, Option-cases, inl, inr, Bool, true,
  false, ◌||◌, ◌&&◌, not, Option, none, some, List, [], ◌∷◌, arith, ◌==◌, ==_iff, if◌then◌else◌,
  elem, elem-append,
}
use cape_implementation.Worklist.Ends.{Below}
use cape_implementation.Queue.{fifo_push}
use cape_implementation.Queue.Once.{fifo_push-IsContainer}
use cape_implementation.Cfg.{is_cond_exit}
use cape_implementation.Cfg.Ranked.{IsForest, get_br_loop_blocks_ends}
use cape_implementation.Transaction.{Program, is_branch}
use cape_implementation.Topmost.{Dependences}
use cape_implementation.Marking.{
  Accesses, Marking, mark_pass_zero, slice_of, reads_secret, exited_loop, enqueue, enqueue_nodes,
  enqueue_blocks, enqueue_loop, mark_block, mark_graph, mark_node,
}
use cape_implementation.NodesWalk.{Graph, Walking}
use cape_implementation.NodesWalk.Walk.{Fresh, walk_ends}
use cape_implementation.NodesWalk.Follows.{may}
use cape_implementation.WalkAndMark.{walk_options, narrow, visit_zero, mark_slice, mark, in_order}
use cape_implementation.WalkAndMark.Marks.{Marked, mark_slices}

elem-in_order : (x : ℕ) (xs : List ℕ) → elem x (in_order xs) ≡ elem x xs
unfolding in_order
elem-in_order x [] = refl
elem-in_order x (y ∷ xs) = ground (arith, elem-append x (in_order xs) (y ∷ []), elem-in_order x xs)

abbrev Under : ℕ → List ℕ → Type 0
Under n xs = (x : ℕ) → elem x xs ≡ true → x < n

-- The nodes of the program are below a bound, and the immediate dominators of the `blocks` blocks
-- form a forest.
pub record Finite (p : Program) (a : Accesses) (bound blocks : ℕ) (rank : ℕ → ℕ) : Type 0 where
  pub nodes_below : (b x : ℕ) → elem x (a.nodes_of b) ≡ true → x < bound
  pub entries_below : (f : ℕ) → a.entry f < bound
  pub forest : IsForest p.graph blocks rank
  pub few_blocks : (b : ℕ) → Below blocks (p.graph.predecessors b)

module _ (p : Program) (d : Dependences) (a : Accesses) (bound blocks : ℕ) (rank : ℕ → ℕ)
    (fin : Finite p a bound blocks rank) where
  enqueue_nodes-Under :
      (ns : List ℕ) (m : Marking)
      → Under bound ns
      → Under bound m.enqueued
      → Under bound (enqueue_nodes ns m).enqueued
  unfolding enqueue_nodes enqueue
  enqueue_nodes-Under [] m h u = u
  enqueue_nodes-Under (n ∷ ns) m h u = elim (Bool-cases (m.state.node_slice n == 0)) [
    | inl new ↦
        rw (enqueue_nodes, new)
          (enqueue_nodes-Under ns (enqueue n m) (λ x e. h x (ground (arith, e)))
            (λ x e. ground (arith, e, h n, ==_iff n x, u x)))
    | inr old ↦
        rw (enqueue_nodes, old) (enqueue_nodes-Under ns m (λ x e. h x (ground (arith, e))) u)
  ]

  enqueue_blocks-Under :
      (bs : List ℕ) (m : Marking)
      → Under bound m.enqueued
      → Under bound (enqueue_blocks p d a bs m).enqueued
  unfolding enqueue_blocks
  enqueue_blocks-Under [] m u = u
  enqueue_blocks-Under (b ∷ bs) m u =
      enqueue_blocks-Under bs (enqueue_nodes (a.nodes_of b) m)
        (enqueue_nodes-Under (a.nodes_of b) m (fin.nodes_below b) u)

  enqueue_loop-Under :
      (found : Option (ℕ × List ℕ)) (m : Marking)
      → Under bound m.enqueued
      → Under bound (enqueue_loop p d a found m).enqueued
  unfolding enqueue_loop
  enqueue_loop-Under none m u = u
  enqueue_loop-Under (some (header, loop)) m u = enqueue_blocks-Under loop m u

  mark_block_enqueued :
      (slice_id : ℕ) (b : Option ℕ) (m : Marking)
      → (mark_block p d a slice_id b m).enqueued ≡ m.enqueued
  unfolding mark_block
  mark_block_enqueued slice_id none m = refl
  mark_block_enqueued slice_id (some b) m = refl

  mark_graph-Under :
      (slice_id : ℕ) (f : Option ℕ) (m : Marking)
      → Under bound m.enqueued
      → Under bound (mark_graph p d a slice_id f m).enqueued
  unfolding mark_graph enqueue
  mark_graph-Under slice_id none m u = u
  mark_graph-Under slice_id (some f) m u = elim (Bool-cases a.forward) [
    | inl forward ↦ rw forward u
    | inr backward ↦
        rw backward (λ x e. ground (arith, e, fin.entries_below f, ==_iff (a.entry f) x, u x))
  ]

  mark_node-Under :
      (slice_id n : ℕ) (m : Marking)
      → Under bound m.enqueued
      → Under bound (mark_node p d a slice_id n m).1.enqueued
  unfolding mark_node
  mark_node-Under slice_id n m u =
      mark_graph-Under slice_id (a.graph_of n) _
        (subst (Under bound) (sym (mark_block_enqueued slice_id (p.block_of n) _)) u)

  exited_loop_ends :
      (n : ℕ) → (found : Option (ℕ × List ℕ)) × (exited_loop p d a (blocks + 1) n ≡ some found)
  unfolding exited_loop
  exited_loop_ends n = elim (Option-cases (p.block_of n)) [
    | inl nowhere ↦ (none, rw (exited_loop, nowhere) refl)
    | inr (b, at_block) ↦
        let (o, loop) = get_br_loop_blocks_ends p.graph blocks rank fin.forest fin.few_blocks b in
        elim (Option-cases o) [
          | inl nothing ↦ (none, rw (exited_loop, at_block, loop, nothing) refl)
          | inr ((header, body), found) ↦ (
            if elem b body && is_cond_exit p.graph b body then some (header, body) else none,
            rw (exited_loop, at_block, loop, found) refl,
          )
        ]
  ]

  mark_pass_zero_ends :
      (slice_id n : ℕ) (m : Marking)
      → Under bound m.enqueued
      → (r : Bool × Marking) × (mark_pass_zero p d a (blocks + 1) slice_id n m ≡ some r)
        × Under bound r.1.enqueued
  unfolding mark_pass_zero
  mark_pass_zero_ends slice_id n m u =
      elim (Bool-cases (
        not (m.state.node_slice n == 0)
        || (a.is_instruction n && reads_secret p d a n (a.access n)))) [
          | inl skipped ↦ ((false, m), rw skipped refl, u)
          | inr fresh ↦ elim (Bool-cases (a.is_instruction n && is_branch (p.opcode n))) [
            | inl branches ↦
                let (found, f) = exited_loop_ends n in
                (
                  mark_node p d a slice_id n (enqueue_loop p d a found m),
                  rw (fresh, branches, f) refl,
                  mark_node-Under slice_id n (enqueue_loop p d a found m)
                      (enqueue_loop-Under found m u),
                )
            | inr plain ↦ (
              mark_node p d a slice_id n m,
              rw (fresh, plain) refl,
              mark_node-Under slice_id n m u,
            )
          ]
        ]

  visit_zero_ends :
      (slice_id n : ℕ) (m : Marking)
      → (r : Bool × List ℕ × Marking) × (visit_zero p d a (blocks + 1) slice_id n m ≡ some r)
        × Under bound r.1
  unfolding visit_zero
  visit_zero_ends slice_id n m =
      let (r, e, u) =
        mark_pass_zero_ends slice_id n (record m { enqueued = [] })
          (λ x i. absurd (ground arith)) in
      (
        (r.0, in_order r.1.enqueued, r.1),
        rw e refl,
        λ x i. u x (sym (elem-in_order x r.1.enqueued) ∙ i),
      )

  module _ (g : Graph) where
    abbrev extra_or : Option (Bool × List ℕ × Marking) → List ℕ
    extra_or none = []
    extra_or (some (marked, extra, t)) = extra

    visits_below :
        (slice_id n : ℕ) (m t : Marking) (marked : Bool) (extra : List ℕ)
        → visit_zero p d a (blocks + 1) slice_id n m ≡ some (marked, extra, t)
        → Under bound extra
    visits_below slice_id n m t marked extra e =
        let (r, f, u) = visit_zero_ends slice_id n m in
        let same : r.1 ≡ extra = ap extra_or (sym f ∙ e) in subst (Under bound) same u

    -- In a finite program, where the edges that are followed lead from nodes below the bound to such nodes,
    -- mark returns in the first pass from a fresh state with more steps than the bound and with a slice
    -- that is not 0; its walk visited the right nodes, each once, and the visited nodes that had no slice
    -- and are no accesses of a secret object have the slice of the run, all other nodes the slice they had.
    pub mark_ends :
        (steps counter sl_id buff_id : ℕ) (start : List ℕ) (s : Walking) (m : Marking)
        → Fresh counter s
        → Under bound start
        → ((n x : ℕ) → n < bound → elem x (may g (walk_options a.forward) n) ≡ true → x < bound)
        → bound < steps
        → 0 < slice_of sl_id
        → (last : ℕ) × (after : Walking) × (t : Marking) × (mark p d a g 0
              (blocks + 1)
              steps
              counter
              start
              sl_id
              buff_id
              (s, m)
            ≡ some (last, after, t))
          × Marked p d a g (blocks + 1) sl_id start m.state.node_slice (after, t)
    unfolding mark mark_slice
    mark_ends steps counter sl_id buff_id start s m fresh inside edges enough positive =
        let (after, t, w, c) =
          walk_ends fifo_push fifo_push-IsContainer g (mark_slice p d a 0 (blocks + 1) sl_id)
            (walk_options a.forward) false bound steps counter start s
            (record m { buffers = record m.buffers { alloc_id = buff_id } }) fresh
            (record {
              entries_below = inside;
              edges_below = edges;
              visits_below = λ n x u v marked extra below e i.
                  visits_below (slice_of sl_id) n u v marked extra e x i;
            })
            (λ n u. let (r, e, under) = visit_zero_ends (slice_of sl_id) n u in (r, e)) enough in
        let returns : mark p d a g 0 (blocks + 1) steps counter start sl_id buff_id (s, m)
            ≡ some (narrow t.buffers.alloc_id, after, t) =
          rw w refl in
        (
          narrow t.buffers.alloc_id,
          after,
          t,
          returns,
          mark_slices p d a g (blocks + 1) steps counter sl_id buff_id start s m
              (narrow t.buffers.alloc_id) after t fresh positive returns,
        )
