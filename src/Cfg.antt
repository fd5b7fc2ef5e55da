-- ===== src/Cfg.antt =====
-- include/dg/Slicing.h: the control flow graph that the marking of sensitive code reads, and the
-- search for the loop of a branch. Blocks and nodes (instructions) are named by numbers, and the
-- graph, which other passes build, is a record of functions.
pub mod Loop
pub mod Ranked
mod Examples
use cape_implementation.Prelude.{
  ℕ, zero, suc, Bool, true, false, ◌||◌, not, Option, none, some, List, [], ◌∷◌, ◌==◌,
  if◌then◌else◌, elem,
}
use cape_implementation.Worklist.{Search, push_front, explore}

-- What the functions of the header read of a `BBlock`.
pub record Cfg : Type 0 where
  pub successors : ℕ → List ℕ
  pub predecessors : ℕ → List ℕ
  pub idom : ℕ → Option ℕ
  pub ipostdom : ℕ → Option ℕ

module _ (g : Cfg) where
  -- `collectLoopBlks`: the set of the blocks; `none` when the fuel is used up.
  unfoldable pub collect_loop_blocks : ℕ → ℕ → ℕ → Option (List ℕ)
  collect_loop_blocks fuel header hpred =
      elim (explore push_front g.predecessors fuel
        (record { seen = hpred ∷ header ∷ []; pending = hpred ∷ []; expanded = [] })) [
          | none ↦ none
          | some s ↦ some s.seen
        ]

  -- The inner loop of `getBrLoopBlocks`: whether `blk` is an immediate dominator on the way up.
  unfoldable pub on_idom_chain : ℕ → ℕ → ℕ → Option Bool
  on_idom_chain zero blk cur = none
  on_idom_chain (suc fuel) blk cur = elim (g.idom cur) [
    | none ↦ some false
    | some d ↦ elim (d == blk) [ true ↦ some true | false ↦ on_idom_chain fuel blk d ]
  ]

  -- The loop over the predecessors: the source of the first back edge to `blk`.
  unfoldable pub back_edge : ℕ → ℕ → List ℕ → Option (Option ℕ)
  back_edge fuel blk [] = some none
  back_edge fuel blk (pred ∷ preds) =
      let more = back_edge fuel blk preds in
      elim (on_idom_chain fuel blk pred) [
        | none ↦ none
        | some found ↦ if found then some (some pred) else more
      ]

  -- What is returned for the back edge: the header with the loop, if the branch lies in the loop.
  unfoldable pub loop_of : ℕ → ℕ → ℕ → ℕ → Option (Option (ℕ × List ℕ))
  loop_of fuel br header pred = elim (collect_loop_blocks fuel header pred) [
    | none ↦ none
    | some blks ↦ some (if elem br blks then some (header, blks) else none)
  ]

  -- `getBrLoopBlocks` from the block `blk` up the dominators, with fuel for its own rounds and for those
  -- of the inner loops; `some none` where `ret` stays empty.
  unfoldable pub br_loop_from : ℕ → ℕ → ℕ → ℕ → Option (Option (ℕ × List ℕ))
  br_loop_from zero fuel br blk = none
  br_loop_from (suc rounds) fuel br blk = elim (back_edge fuel blk (g.predecessors blk)) [
    | none ↦ none
    | some (some pred) ↦ loop_of fuel br blk pred
    | some none ↦ elim (g.idom blk) [ none ↦ some none | some d ↦ br_loop_from rounds fuel br d ]
  ]

  unfoldable pub get_br_loop_blocks : ℕ → ℕ → Option (Option (ℕ × List ℕ))
  get_br_loop_blocks fuel br = br_loop_from fuel fuel br br

  -- `isCondExit`: some successor lies outside of the loop.
  unfoldable pub exits_loop : List ℕ → List ℕ → Bool
  exits_loop [] loop = false
  exits_loop (s ∷ ss) loop = not (elem s loop) || exits_loop ss loop

  unfoldable pub is_cond_exit : ℕ → List ℕ → Bool
  is_cond_exit bb loop = exits_loop (g.successors bb) loop
