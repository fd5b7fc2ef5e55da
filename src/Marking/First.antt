-- ===== src/Marking/First.antt =====
-- The nodes that the first pass marks.
use cape_implementation.Prelude.{
  ℕ, ◌≡◌, refl, sym, ap, ◌∙◌, Bool, Bool-cases, inl, inr, true, false, ◌||◌, ◌&&◌, not, Option,
  none, some, List, [], ◌∷◌, arith, ◌==◌, if◌then◌else◌, bind-some,
}
use cape_implementation.Transaction.{Program, State, set_at, set_node, set_block, is_branch}
use cape_implementation.Topmost.{Dependences}
use cape_implementation.Marking.{
  Accesses, Marking, exited_loop, enqueue, enqueue_nodes, enqueue_blocks, enqueue_loop,
  reads_secret, mark_block, mark_graph, mark_node, mark_pass_zero,
}

enqueue_nodes_state : (ns : List ℕ) (m : Marking) → (enqueue_nodes ns m).state ≡ m.state
unfolding enqueue_nodes enqueue
enqueue_nodes_state [] m = refl
enqueue_nodes_state (n ∷ ns) m = elim (Bool-cases (m.state.node_slice n == 0)) [
  | inl new ↦ rw (new, enqueue_nodes) (enqueue_nodes_state ns (enqueue n m))
  | inr old ↦ rw (old, enqueue_nodes) (enqueue_nodes_state ns m)
]

module _ (p : Program) (d : Dependences) (a : Accesses) where
  enqueue_blocks_state : (bs : List ℕ) (m : Marking) → (enqueue_blocks p d a bs m).state ≡ m.state
  unfolding enqueue_blocks
  enqueue_blocks_state [] m = refl
  enqueue_blocks_state (b ∷ bs) m =
      enqueue_blocks_state bs (enqueue_nodes (a.nodes_of b) m)
      ∙ enqueue_nodes_state (a.nodes_of b) m

  enqueue_loop_state :
      (found : Option (ℕ × List ℕ)) (m : Marking) → (enqueue_loop p d a found m).state ≡ m.state
  unfolding enqueue_loop
  enqueue_loop_state none m = refl
  enqueue_loop_state (some (header, loop)) m = enqueue_blocks_state loop m

  mark_graph_state :
      (slice_id : ℕ) (g : Option ℕ) (m : Marking) → (mark_graph p d a slice_id g m).state ≡ m.state
  unfolding mark_graph enqueue
  mark_graph_state slice_id none m = refl
  mark_graph_state slice_id (some g) m = elim (Bool-cases a.forward) [
    | inl forward ↦ rw forward refl
    | inr backward ↦ rw backward refl
  ]

  mark_block_nodes :
      (slice_id : ℕ) (b : Option ℕ) (m : Marking)
      → (mark_block p d a slice_id b m).state.node_slice ≡ m.state.node_slice
  unfolding mark_block set_block
  mark_block_nodes slice_id none m = refl
  mark_block_nodes slice_id (some b) m = refl

  mark_node_nodes :
      (slice_id n : ℕ) (m : Marking)
      → (mark_node p d a slice_id n m).1.state.node_slice ≡ set_at m.state.node_slice n slice_id
  unfolding mark_node set_node
  mark_node_nodes slice_id n m =
      let first = record m { state = set_node n slice_id m.state } in
      ap (λ (s : State). s.node_slice)
        (mark_graph_state slice_id (a.graph_of n) (mark_block p d a slice_id (p.block_of n) first))
      ∙ mark_block_nodes slice_id (p.block_of n) first

  -- The slices of nodes after a visit that marks, or does not mark, the node `n`.
  abbrev pub is_marked_now : ℕ → Marking → Bool
  is_marked_now n m =
      m.state.node_slice n == 0 && not (a.is_instruction n && reads_secret p d a n (a.access n))

  abbrev node_slices : Option (Bool × Marking) → ℕ → ℕ
  node_slices none k = 0
  node_slices (some (b, t)) k = t.state.node_slice k

  marked_after :
      (slice_id n : ℕ) (m u : Marking) (answer : Bool) (t : Marking)
      → u.state ≡ m.state
      → some (mark_node p d a slice_id n u) ≡ some (answer, t)
      → is_marked_now n m ≡ true
      → t.state.node_slice
        ≡ (if is_marked_now n m then set_at m.state.node_slice n slice_id else m.state.node_slice)
  marked_after slice_id n m u answer t same e now = rw now (
      sym (ap node_slices e)
      ∙ mark_node_nodes slice_id n u
      ∙ ap (λ (s : State). set_at s.node_slice n slice_id) same)

  -- Where a visit of `markSlice` in pass 0 returns, a node that was not marked and that is no access of a
  -- secret object has the slice, and the slices of all other nodes are as before.
  pub mark_pass_zero_marks :
      (fuel slice_id n : ℕ) (m : Marking) (answer : Bool) (t : Marking)
      → mark_pass_zero p d a fuel slice_id n m ≡ some (answer, t)
      → t.state.node_slice
        ≡ (if is_marked_now n m then set_at m.state.node_slice n slice_id else m.state.node_slice)
  unfolding mark_pass_zero
  mark_pass_zero_marks fuel slice_id n m answer t e =
      elim (Bool-cases (
        not (m.state.node_slice n == 0)
        || (a.is_instruction n && reads_secret p d a n (a.access n)))) [
          | inl skipped ↦
              let now : is_marked_now n m ≡ false = ground arith in
              rw now (sym (ap node_slices (rw skipped at e)))
          | inr fresh ↦ elim (Bool-cases (a.is_instruction n && is_branch (p.opcode n))) [
            | inl branches ↦
                let (found, f, e1) =
                  bind-some (exited_loop p d a fuel n) _ _ (rw (fresh, branches) at e) in
                marked_after slice_id n m (enqueue_loop p d a found m) answer t
                  (enqueue_loop_state found m) e1 (ground arith)
            | inr plain ↦
                marked_after slice_id n m m answer t refl (rw (fresh, plain) at e) (ground arith)
          ]
        ]
