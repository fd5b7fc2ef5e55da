-- ===== src/Slicer/Examples.antt =====
-- Slicing a small graph: block 0 leads to 1, and that to 2; blocks 1 and 2 are not in the slice 1, and the
-- backend keeps block 2.
use cape_implementation.Prelude.{
  ℕ, zero, suc, ◌≡◌, ◌⊎◌, refl, arith, Bool, true, false, not, Option, List, [], ◌∷◌, ◌==◌, some,
  none,
}
use cape_implementation.BasicBlock.{Block, Store, erase_block}
use cape_implementation.BasicBlock.Joined.{Symmetric}
use cape_implementation.Slicer.{
  SlicedGraph, slice_bblocks, blocks_to_remove, remove_each, remove, count_block,
}
use cape_implementation.Slicer.Flow.{IsSliced, AllGone, SomeKept, slice_bblocks_keeps_flow}

abbrev block : List (ℕ × ℕ) → List ℕ → ℕ → Block
block next prev slice = record {
  nodes = [];
  next = next;
  prev = prev;
  control = [];
  rev_control = [];
  slice = slice;
}

abbrev three_blocks : Store
three_blocks zero = block ((1, 0) ∷ []) [] 1
three_blocks (suc zero) = block ((2, 0) ∷ []) (0 ∷ []) 0
three_blocks (suc (suc zero)) = block [] (1 ∷ []) 0
three_blocks (suc (suc (suc n))) = block [] [] 1

three_blocks-Symmetric : Symmetric three_blocks
three_blocks-Symmetric zero zero = refl
three_blocks-Symmetric zero (suc zero) = refl
three_blocks-Symmetric zero (suc (suc zero)) = refl
three_blocks-Symmetric zero (suc (suc (suc b))) = ground arith
three_blocks-Symmetric (suc zero) zero = refl
three_blocks-Symmetric (suc zero) (suc zero) = refl
three_blocks-Symmetric (suc zero) (suc (suc zero)) = refl
three_blocks-Symmetric (suc zero) (suc (suc (suc b))) = ground arith
three_blocks-Symmetric (suc (suc zero)) zero = refl
three_blocks-Symmetric (suc (suc zero)) (suc zero) = refl
three_blocks-Symmetric (suc (suc zero)) (suc (suc zero)) = refl
three_blocks-Symmetric (suc (suc zero)) (suc (suc (suc b))) = refl
three_blocks-Symmetric (suc (suc (suc a))) zero = refl
three_blocks-Symmetric (suc (suc (suc a))) (suc zero) = ground arith
three_blocks-Symmetric (suc (suc (suc a))) (suc (suc zero)) = ground arith
three_blocks-Symmetric (suc (suc (suc a))) (suc (suc (suc b))) = refl

abbrev small : SlicedGraph
small = record {
  store = three_blocks;
  blocks = 0 ∷ 1 ∷ 2 ∷ [];
  entry_block = some 0;
  nodes = [];
  statistics = record { nodes_total = 0; nodes_removed = 0; blocks_removed = 0 };
}

abbrev lets_go : ℕ → Bool
lets_go b = not (b == 2)

assertion_fails : slice_bblocks lets_go true 1 small ≡ none
unfolding slice_bblocks blocks_to_remove remove_each remove erase_block count_block
assertion_fails = refl

abbrev blocks_left : Option SlicedGraph → Option (List ℕ)
blocks_left none = none
blocks_left (some g) = some g.blocks

assertion_holds : blocks_left (slice_bblocks (λ b. true) true 1 small) ≡ some (0 ∷ [])
unfolding slice_bblocks blocks_to_remove remove_each remove erase_block count_block
assertion_holds = refl

slice_bblocks_keeps_flow_example :
    (after : SlicedGraph) × (slice_bblocks lets_go false 1 small ≡ some after)
    × IsSliced lets_go 1 small after
    × (AllGone lets_go 1 small after ⊎ SomeKept lets_go 1 small after)
slice_bblocks_keeps_flow_example =
    slice_bblocks_keeps_flow lets_go 1 small three_blocks-Symmetric refl (omega arith)
