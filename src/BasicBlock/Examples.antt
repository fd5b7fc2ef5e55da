-- ===== src/BasicBlock/Examples.antt =====
-- Instances at a store of four blocks: 0 leads to 1, which leads to itself and to 2 and, with the label 1, to 3.
use cape_implementation.Prelude.{
  ℕ, zero, suc, ◌≡◌, refl, arith, true, false, ◌||◌, ◌&&◌, List, [], ◌∷◌, ◌==◌,
}
use cape_implementation.BasicBlock.{Block, Store, isolate, remove_successor}
use cape_implementation.BasicBlock.Edges.{edge, leads, comes}
use cape_implementation.BasicBlock.Joined.{Symmetric}
use cape_implementation.BasicBlock.Isolate.{isolate_correct}
use cape_implementation.BasicBlock.Labels.{remove_successor_loses_predecessor}

abbrev block : List (ℕ × ℕ) → List ℕ → Block
block next prev = record {
  nodes = [];
  next = next;
  prev = prev;
  control = [];
  rev_control = [];
  slice = 0;
}

abbrev four_blocks : Store
four_blocks zero = block ((1, 0) ∷ []) []
four_blocks (suc zero) = block ((1, 2) ∷ (2, 0) ∷ (3, 1) ∷ []) (0 ∷ 1 ∷ [])
four_blocks (suc (suc zero)) = block [] (1 ∷ [])
four_blocks (suc (suc (suc zero))) = block [] (1 ∷ [])
four_blocks (suc (suc (suc (suc n)))) = block [] []

four_blocks-Symmetric : Symmetric four_blocks
four_blocks-Symmetric zero zero = refl
four_blocks-Symmetric zero (suc zero) = refl
four_blocks-Symmetric zero (suc (suc zero)) = refl
four_blocks-Symmetric zero (suc (suc (suc zero))) = refl
four_blocks-Symmetric zero (suc (suc (suc (suc b)))) = ground arith
four_blocks-Symmetric (suc zero) zero = refl
four_blocks-Symmetric (suc zero) (suc zero) = refl
four_blocks-Symmetric (suc zero) (suc (suc zero)) = refl
four_blocks-Symmetric (suc zero) (suc (suc (suc zero))) = refl
four_blocks-Symmetric (suc zero) (suc (suc (suc (suc b)))) = ground arith
four_blocks-Symmetric (suc (suc zero)) zero = refl
four_blocks-Symmetric (suc (suc zero)) (suc zero) = refl
four_blocks-Symmetric (suc (suc zero)) (suc (suc zero)) = refl
four_blocks-Symmetric (suc (suc zero)) (suc (suc (suc zero))) = refl
four_blocks-Symmetric (suc (suc zero)) (suc (suc (suc (suc b)))) = refl
four_blocks-Symmetric (suc (suc (suc zero))) zero = refl
four_blocks-Symmetric (suc (suc (suc zero))) (suc zero) = refl
four_blocks-Symmetric (suc (suc (suc zero))) (suc (suc zero)) = refl
four_blocks-Symmetric (suc (suc (suc zero))) (suc (suc (suc zero))) = refl
four_blocks-Symmetric (suc (suc (suc zero))) (suc (suc (suc (suc b)))) = refl
four_blocks-Symmetric (suc (suc (suc (suc a)))) zero = refl
four_blocks-Symmetric (suc (suc (suc (suc a)))) (suc zero) = ground arith
four_blocks-Symmetric (suc (suc (suc (suc a)))) (suc (suc zero)) = ground arith
four_blocks-Symmetric (suc (suc (suc (suc a)))) (suc (suc (suc zero))) = ground arith
four_blocks-Symmetric (suc (suc (suc (suc a)))) (suc (suc (suc (suc b)))) = refl

isolate_correct_example :
    ((a k : ℕ) → edge (isolate 1 four_blocks) a 1 k ≡ false)
    × ((b k : ℕ) → edge (isolate 1 four_blocks) 1 b k ≡ false)
    × ((b : ℕ)
        → (comes (isolate 1 four_blocks) b 1 ≡ false) × (comes (isolate 1 four_blocks) 1 b ≡ false))
    × ((a b k : ℕ)
        → (1 == a) ≡ false
        → (1 == b) ≡ false
        → edge (isolate 1 four_blocks) a b k
          ≡ (edge four_blocks a b k || (edge four_blocks a 1 k && leads four_blocks 1 b)))
    × Symmetric (isolate 1 four_blocks)
isolate_correct_example = isolate_correct 1 four_blocks four_blocks-Symmetric

-- Two edges to block 1, with the labels 0 and 1.
abbrev two_labels : Store
two_labels zero = block ((1, 0) ∷ (1, 1) ∷ []) []
two_labels (suc zero) = block [] (0 ∷ [])
two_labels (suc (suc n)) = block [] []

remove_successor_loses_predecessor_example :
    (edge (remove_successor 0 (1, 0) two_labels) 0 1 1 ≡ true)
    × (comes (remove_successor 0 (1, 0) two_labels) 1 0 ≡ false)
remove_successor_loses_predecessor_example =
    remove_successor_loses_predecessor 0 1 0 1 two_labels refl refl
