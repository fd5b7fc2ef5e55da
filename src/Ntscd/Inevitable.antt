-- ===== src/Ntscd/Inevitable.antt =====
-- The nodes from which every path comes to a target.
use cape_implementation.Prelude.{ℕ, ◌≡◌, true, elem}
use cape_implementation.CdGraph.{CdGraph}

-- The target, and each node that has a successor and all whose successors are such.
pub data Inevitable (g : CdGraph) (t : ℕ) : ℕ → Type 0 where
  is_target : {n : ℕ} → n ≡ t → Inevitable g t n
  by_all :
      {n : ℕ} (s : ℕ)
      → elem s (g.successors n) ≡ true
      → ((x : ℕ) → elem x (g.successors n) ≡ true → Inevitable g t x)
      → Inevitable g t n

-- The node depends on the predicate: one successor must come to it, and another need not.
pub record Controls (g : CdGraph) (p n : ℕ) : Type 0 where
  pub must : (a : ℕ) × (elem a (g.successors p) ≡ true) × Inevitable g n a
  pub may_not : (b : ℕ) × (elem b (g.successors p) ≡ true) × ¬ Inevitable g n b
