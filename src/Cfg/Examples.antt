-- ===== src/Cfg/Examples.antt =====
-- The theorems on loops at a small graph: 0 is the entry, 1 the header of a loop with the body 2, and 3 the exit.
use cape_implementation.Prelude.{
  ℕ, zero, suc, ◌<◌, ◌≡◌, ◌⊎◌, inl, inr, refl, sym, ap, Bool-cases, true, none, some, List, [], ◌∷◌,
  arith, ◌==◌, ==_iff, elem,
}
use cape_implementation.Worklist.{explore, expand, offer_all, offer}
use cape_implementation.Cfg.{
  Cfg, collect_loop_blocks, on_idom_chain, back_edge, loop_of, br_loop_from, get_br_loop_blocks,
  exits_loop, is_cond_exit,
}
use cape_implementation.Cfg.Loop.{IsBrLoop, get_br_loop_blocks_sound}
use cape_implementation.Sample.{sample_graph}
use cape_implementation.Sample.Shape.{depth, depth-IsForest}
use cape_implementation.Cfg.Ranked.{
  IsForest, Up-falls, IsSelfLoop, IsLoopAround, br_loop_misses_self_loop,
}
use cape_implementation.Worklist.Ends.{Below}

body_found : collect_loop_blocks sample_graph 5 1 2 ≡ some (2 ∷ 1 ∷ [])
unfolding collect_loop_blocks explore expand offer_all offer
body_found = refl

loop_found : get_br_loop_blocks sample_graph 5 2 ≡ some (some (1, 2 ∷ 1 ∷ []))
unfolding get_br_loop_blocks br_loop_from back_edge on_idom_chain loop_of collect_loop_blocks
    explore expand offer_all offer
loop_found = refl

abbrev body : ℕ
body = 2

header_exits : is_cond_exit sample_graph 1 (2 ∷ 1 ∷ []) ≡ true
unfolding is_cond_exit exits_loop
header_exits = refl

get_br_loop_blocks_sound_example : IsBrLoop sample_graph 2 1 (2 ∷ 1 ∷ [])
get_br_loop_blocks_sound_example =
    get_br_loop_blocks_sound sample_graph 5 2 1 (2 ∷ 1 ∷ []) loop_found

-- The block 2 branches also to itself.
abbrev loop_preds : ℕ → List ℕ
loop_preds zero = []
loop_preds (suc zero) = 0 ∷ 2 ∷ []
loop_preds (suc (suc zero)) = 1 ∷ 2 ∷ []
loop_preds (suc (suc (suc zero))) = 1 ∷ []
loop_preds (suc (suc (suc (suc b)))) = []

abbrev loop_succs : ℕ → List ℕ
loop_succs zero = 1 ∷ []
loop_succs (suc zero) = 2 ∷ 3 ∷ []
loop_succs (suc (suc zero)) = 1 ∷ 2 ∷ []
loop_succs (suc (suc (suc b))) = []

abbrev self_loop_graph : Cfg
self_loop_graph = record sample_graph { successors = loop_succs; predecessors = loop_preds }

loop_preds-Below : (b : ℕ) → Below 4 (loop_preds b)
loop_preds-Below zero a p = cc
loop_preds-Below (suc zero) a p = ground (arith, ==_iff 0 a, ==_iff 2 a)
loop_preds-Below (suc (suc zero)) a p = ground (arith, ==_iff 1 a, ==_iff 2 a)
loop_preds-Below (suc (suc (suc zero))) a p = ground (arith, ==_iff 1 a)
loop_preds-Below (suc (suc (suc (suc b)))) a p = cc

self_loop-IsForest : IsForest self_loop_graph 4 depth
self_loop-IsForest = record { bound = depth-IsForest.bound; falls = depth-IsForest.falls }

body_only : (q : ℕ) → elem q (loop_preds 2) ≡ true → depth 2 < depth q → q ≡ 2
body_only q p deeper = elim (Bool-cases (2 == q)) [
  | inl same ↦ sym ((==_iff 2 q).0 same)
  | inr other ↦
      let one_is : 1 ≡ q = ground (arith, ==_iff 1 q) in
      absurd (omega (arith, deeper, depth-IsForest.falls 2 1 refl, ap depth one_is))
]

body-IsSelfLoop : IsSelfLoop self_loop_graph 2
body-IsSelfLoop = record {
  itself = refl;
  only = λ q p up. body_only q p (Up-falls self_loop_graph 4 depth self_loop-IsForest up);
}

br_loop_misses_self_loop_example :
    (get_br_loop_blocks self_loop_graph 5 2 ≡ some none)
    ⊎ ((h : ℕ) × (blks : List ℕ) × (get_br_loop_blocks self_loop_graph 5 2 ≡ some (some (h, blks)))
        × IsLoopAround self_loop_graph 2 h blks)
br_loop_misses_self_loop_example =
    br_loop_misses_self_loop self_loop_graph 4 depth self_loop-IsForest 2 body-IsSelfLoop
      loop_preds-Below

-- The block 2 branches only to itself.
abbrev alone_preds : ℕ → List ℕ
alone_preds zero = []
alone_preds (suc zero) = 0 ∷ []
alone_preds (suc (suc zero)) = 1 ∷ 2 ∷ []
alone_preds (suc (suc (suc b))) = 1 ∷ []

no_loop_found :
    get_br_loop_blocks (record sample_graph { predecessors = alone_preds }) 5 2 ≡ some none
unfolding get_br_loop_blocks br_loop_from back_edge on_idom_chain loop_of
no_loop_found = refl
