-- ===== src/Slicer.antt =====
-- include/dg/Slicing.h: `Slicer`, which takes the blocks and nodes without the slice out of a graph, and
-- `BBlock::remove` of include/dg/BBlock.h.
pub mod Path
pub mod Count
pub mod Flow
mod Examples
use cape_implementation.Prelude.{
  ℕ, zero, suc, ◌+◌, ◌%◌, ◌^◌, Bool, true, false, ◌&&◌, not, Option, none, some, List, [], ◌∷◌,
  ◌==◌, if◌then◌else◌, length, elem,
}
use cape_implementation.BasicBlock.{Store, isolate, erase_block}

-- `SlicerStatistics`
pub record Statistics : Type 0 where
  pub nodes_total : ℕ
  pub nodes_removed : ℕ
  pub blocks_removed : ℕ

-- The blocks of a graph, its entry block and its nodes.
pub record SlicedGraph : Type 0 where
  pub store : Store
  pub blocks : List ℕ
  pub entry_block : Option ℕ
  pub nodes : List ℕ
  pub statistics : Statistics

unfoldable pub forget_entry : ℕ → Option ℕ → Option ℕ
forget_entry x none = none
forget_entry x (some b) = if b == x then none else some b

unfoldable pub erase_nodes : List ℕ → List ℕ → List ℕ
erase_nodes [] ns = ns
erase_nodes (n ∷ rest) ns = erase_nodes rest (erase_block n ns)

-- `BBlock::remove`, for a block of the graph; the edges of its nodes have no model.
unfoldable pub remove : ℕ → SlicedGraph → SlicedGraph
remove x g = record g {
  store = isolate x g.store;
  blocks = erase_block x g.blocks;
  entry_block = forget_entry x g.entry_block;
  nodes = erase_nodes (g.store x).nodes g.nodes;
}

-- The blocks without the slice.
unfoldable pub blocks_to_remove : ℕ → Store → List ℕ → List ℕ
blocks_to_remove sl_id st [] = []
blocks_to_remove sl_id st (b ∷ bs) =
    let rest = blocks_to_remove sl_id st bs in if (st b).slice == sl_id then rest else b ∷ rest

unfoldable pub count_block : ℕ → SlicedGraph → SlicedGraph
count_block b g = record g {
  statistics = record {
    nodes_total = (g.statistics.nodes_total + length (g.store b).nodes) % 2 ^ 64;
    nodes_removed = (g.statistics.nodes_removed + length (g.store b).nodes) % 2 ^ 64;
    blocks_removed = suc g.statistics.blocks_removed % 2 ^ 32;
  };
}

-- `removeBlock` is that of the backend: it may keep the block.
module _ (remove_block : ℕ → Bool) where
  unfoldable pub remove_each : List ℕ → SlicedGraph → SlicedGraph
  remove_each [] g = g
  remove_each (b ∷ bs) g =
      let counted = count_block b g in
      remove_each bs (if remove_block b then remove b counted else counted)

  -- The closing assertion that the blocks left and those to remove are as many as there were; it is
  -- there only in a build with assertions, and where it fails there is no result.
  unfoldable pub slice_bblocks : Bool → ℕ → SlicedGraph → Option SlicedGraph
  slice_bblocks asserts sl_id g =
      let doomed = blocks_to_remove sl_id g.store g.blocks in
      let after = remove_each doomed g in
      if asserts && not (length after.blocks + length doomed == length g.blocks)
      then none
      else some after
