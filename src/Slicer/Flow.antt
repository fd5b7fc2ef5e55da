-- ===== src/Slicer/Flow.antt =====
-- Slicing keeps the flow between the blocks that stay.
use cape_implementation.Prelude.{
  ℕ, ◌+◌, ◌^◌, ◌≡◌, ◌⊎◌, ◌↔◌, subst, refl, sym, Bool-cases, inl, inr, Bool, true, false, ◌||◌, ◌&&◌,
  not, List, [], ◌∷◌, arith, ◌==◌, ==_iff, elem, length, ◌<◌, some, none,
}
use cape_implementation.BasicBlock.{Store}
use cape_implementation.BasicBlock.Edges.{leads, elem-erase_block}
use cape_implementation.BasicBlock.Joined.{Symmetric}
use cape_implementation.BasicBlock.Isolate.{isolate_correct}
use cape_implementation.Slicer.{
  SlicedGraph, remove, blocks_to_remove, remove_each, slice_bblocks, count_block,
}
use cape_implementation.Slicer.Path.{PathThrough, direct, through, expand_path, contract_path}
use cape_implementation.Slicer.Count.{
  taken, distinct, elem-blocks_to_remove, distinct-blocks_to_remove, elem-taken, length-remove_each,
  taken_cases, length-blocks_to_remove,
}

module _ (remove_block : ℕ → Bool) where
  record Removed (bs : List ℕ) (g after : SlicedGraph) : Type 0 where
    flow :
        (a b : ℕ)
        → elem a (taken remove_block bs) ≡ false
        → elem b (taken remove_block bs) ≡ false
        → (leads after.store a b ≡ true) ↔ PathThrough g.store (taken remove_block bs) a b
    left : (b : ℕ) → elem b after.blocks ≡ (elem b g.blocks && not (elem b (taken remove_block bs)))
    number : after.statistics.blocks_removed ≡ g.statistics.blocks_removed + length bs
    agree : Symmetric after.store

  no_path : (st : Store) (a b : ℕ) → PathThrough st [] a b → leads st a b ≡ true
  no_path st a b (direct e) = e
  no_path st a b (through {c = c} e i rest) = absurd (ground arith)

  remove_each-Removed :
      (bs : List ℕ) (g : SlicedGraph)
      → Symmetric g.store
      → g.statistics.blocks_removed + length bs < 2 ^ 32
      → Removed bs g (remove_each remove_block bs g)
  unfolding remove_each remove count_block
  remove_each-Removed [] g s fits = record {
    flow = λ a b p q. (λ e. direct e, λ t. no_path g.store a b t);
    left = λ b. ground arith;
    number = omega arith;
    agree = s;
  }
  remove_each-Removed (x ∷ bs) g s fits = elim (Bool-cases (remove_block x)) [
    | inr stays ↦
        let all : taken remove_block (x ∷ bs) ≡ taken remove_block bs = ground (arith, stays) in
        let rest = remove_each-Removed bs (count_block x g) s (omega (arith, fits)) in
        rw stays (record {
          flow = λ a b p q.
              let later = rest.flow a b (ground (arith, p)) (ground (arith, q)) in
              (
                λ e. subst (λ l. PathThrough g.store l a b) (sym all) (later.0 e),
                λ t. later.1 (subst (λ l. PathThrough g.store l a b) all t),
              );
          left = λ b. ground (arith, rest.left b);
          number = omega (arith, rest.number, fits);
          agree = rest.agree;
        })
    | inl goes ↦
        let without = remove x (count_block x g) in
        let rest =
          remove_each-Removed bs without (isolate_correct x g.store s).4 (omega (arith, fits)) in
        let all : taken remove_block (x ∷ bs) ≡ x ∷ taken remove_block bs = ground (arith, goes) in
        rw goes (record {
          flow = λ a b p q.
              let x_a : (x == a) ≡ false = ground (arith, p) in
              let x_b : (x == b) ≡ false = ground (arith, q) in
              let later = rest.flow a b (ground (arith, p)) (ground (arith, q)) in
              (
                λ e.
                    subst (λ l. PathThrough g.store l a b) (sym all)
                      (expand_path x (taken remove_block bs) g.store s (later.0 e) x_a x_b),
                λ t. later.1 (
                    contract_path x (taken remove_block bs) g.store s a
                      (subst (λ l. PathThrough g.store l a b) all t) x_a x_b (inl refl)),
              );
          left = λ b. ground (arith, rest.left b, elem-erase_block x b g.blocks);
          number = omega (arith, rest.number, fits);
          agree = rest.agree;
        })
  ]

  -- The blocks that the backend lets go among those without the slice.
  abbrev pub gone : ℕ → SlicedGraph → List ℕ
  gone sl_id g = taken remove_block (blocks_to_remove sl_id g.store g.blocks)

  -- The graph that is left.
  pub record IsSliced (sl_id : ℕ) (g after : SlicedGraph) : Type 0 where
    pub left :
        (b : ℕ)
        → elem b after.blocks
          ≡ (elem b g.blocks && ((g.store b).slice == sl_id || not (remove_block b)))
    pub flow :
        (a b : ℕ)
        → elem a after.blocks ≡ true
        → elem b after.blocks ≡ true
        → (leads after.store a b ≡ true) ↔ PathThrough g.store (gone sl_id g) a b
    pub number :
        after.statistics.blocks_removed
        ≡ g.statistics.blocks_removed + length (blocks_to_remove sl_id g.store g.blocks)
    pub size : length after.blocks + length (gone sl_id g) ≡ length g.blocks
    pub agree : Symmetric after.store

  -- All blocks without the slice are let go; the assertion holds, and the count is that of the blocks taken out.
  pub record AllGone (sl_id : ℕ) (g after : SlicedGraph) : Type 0 where
    pub let_go :
        (b : ℕ) → elem b (blocks_to_remove sl_id g.store g.blocks) ≡ true → remove_block b ≡ true
    pub passes : slice_bblocks remove_block true sl_id g ≡ some after
    pub exact :
        after.statistics.blocks_removed + length after.blocks
        ≡ g.statistics.blocks_removed + length g.blocks

  -- Some block without the slice is kept; the assertion fails, and without it the count is too high.
  pub record SomeKept (sl_id : ℕ) (g after : SlicedGraph) : Type 0 where
    pub block : ℕ
    pub unsliced : elem block (blocks_to_remove sl_id g.store g.blocks) ≡ true
    pub kept : remove_block block ≡ false
    pub fails : slice_bblocks remove_block true sl_id g ≡ none
    pub exceeds :
        g.statistics.blocks_removed + length g.blocks
        < after.statistics.blocks_removed + length after.blocks

  remove_each-IsSliced :
      (sl_id : ℕ) (g : SlicedGraph)
      → Symmetric g.store
      → distinct g.blocks ≡ true
      → g.statistics.blocks_removed + length g.blocks < 2 ^ 32
      → IsSliced sl_id g (remove_each remove_block (blocks_to_remove sl_id g.store g.blocks) g)
  remove_each-IsSliced sl_id g s u fits =
      let doomed = blocks_to_remove sl_id g.store g.blocks in
      let removed =
        remove_each-Removed doomed g s
          (omega (arith, fits, length-blocks_to_remove sl_id g.store g.blocks)) in
      let kept : (b : ℕ)
          → elem b (gone sl_id g)
            ≡ (remove_block b && (not ((g.store b).slice == sl_id) && elem b g.blocks)) =
        λ b. ground (
          arith,
          elem-taken remove_block b (blocks_to_remove sl_id g.store g.blocks),
          elem-blocks_to_remove sl_id b g.store g.blocks,
        ) in
      record {
        left = λ b. ground (arith, removed.left b, kept b);
        flow = λ a b p q.
            removed.flow a b (ground (arith, p, removed.left a))
              (ground (arith, q, removed.left b));
        number = removed.number;
        size =
            length-remove_each remove_block doomed g u
              (distinct-blocks_to_remove sl_id g.store g.blocks u)
              (λ b m. ground (arith, elem-blocks_to_remove sl_id b g.store g.blocks, m));
        agree = removed.agree;
      }

  -- In a graph of distinct blocks whose edges and predecessors agree, and which are not too many for the
  -- counter of 32 bits, `sliceBBlocks` returns if it is built without assertions; the blocks that are left are those with the slice and those that the backend
  -- keeps; two of them have an edge exactly if a path led from one to the other whose inner blocks are
  -- gone; and edges and predecessors agree. Either all blocks without the slice are let go, the closing
  -- assertion holds and the statistics count the blocks taken out, or one of them is kept, the assertion
  -- fails, and the statistics count more blocks than were taken out.
  pub slice_bblocks_keeps_flow :
      (sl_id : ℕ) (g : SlicedGraph)
      → Symmetric g.store
      → distinct g.blocks ≡ true
      → g.statistics.blocks_removed + length g.blocks < 2 ^ 32
      → (after : SlicedGraph) × (slice_bblocks remove_block false sl_id g ≡ some after)
        × IsSliced sl_id g after
        × (AllGone sl_id g after ⊎ SomeKept sl_id g after)
  unfolding slice_bblocks
  slice_bblocks_keeps_flow sl_id g s u fits =
      let doomed = blocks_to_remove sl_id g.store g.blocks in
      let after = remove_each remove_block doomed g in
      let sliced = remove_each-IsSliced sl_id g s u fits in
      let outcome : AllGone sl_id g after ⊎ SomeKept sl_id g after =
        elim (taken_cases remove_block doomed) [
          | inl (same, all) ↦ inl (record {
            let_go = all;
            passes =
                let holds : (length after.blocks + length doomed == length g.blocks) ≡ true =
                  ground (
                    arith,
                    sliced.size,
                    same,
                    ==_iff (length after.blocks + length doomed) (length g.blocks),
                  ) in
                rw holds refl;
            exact = omega (arith, sliced.number, sliced.size, same);
          })
          | inr (fewer, (b, m, stays)) ↦ inr (record {
            block = b;
            unsliced = m;
            kept = stays;
            fails =
                let broken : (length after.blocks + length doomed == length g.blocks) ≡ false =
                  ground (
                    arith,
                    sliced.size,
                    fewer,
                    ==_iff (length after.blocks + length doomed) (length g.blocks),
                  ) in
                rw broken refl;
            exceeds = omega (arith, sliced.number, sliced.size, fewer);
          })
        ] in
      (after, refl, sliced, outcome)
