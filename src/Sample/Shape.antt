-- ===== src/Sample/Shape.antt =====
-- The small graph of the tests is finite, and its immediate dominators form a forest.
use cape_implementation.Prelude.{ℕ, zero, suc, ◌<◌, ◌≡◌, some, arith, ==_iff}
use cape_implementation.Worklist.Ends.{Below}
use cape_implementation.Cfg.Ranked.{IsForest}
use cape_implementation.Sample.{preds, up, sample_graph}

pub few : (b : ℕ) → Below 4 (preds b)
few zero a p = cc
few (suc zero) a p = ground (arith, ==_iff 0 a, ==_iff 2 a)
few (suc (suc zero)) a p = ground (arith, ==_iff 1 a)
few (suc (suc (suc zero))) a p = ground (arith, ==_iff 1 a)
few (suc (suc (suc (suc n)))) a p = cc

pub depth : ℕ → ℕ
depth zero = 0
depth (suc zero) = 1
depth (suc (suc zero)) = 2
depth (suc (suc (suc zero))) = 2
depth (suc (suc (suc (suc n)))) = 0

depth-lt : (c : ℕ) → depth c < 4
unfolding depth
depth-lt zero = omega arith
depth-lt (suc zero) = omega arith
depth-lt (suc (suc zero)) = omega arith
depth-lt (suc (suc (suc zero))) = omega arith
depth-lt (suc (suc (suc (suc n)))) = omega arith

depth-falls : (c d : ℕ) → up c ≡ some d → depth d < depth c
unfolding depth
depth-falls zero d e = cc
depth-falls (suc zero) zero e = omega arith
depth-falls (suc zero) (suc d) e = absurd (ground arith)
depth-falls (suc (suc zero)) zero e = absurd (ground arith)
depth-falls (suc (suc zero)) (suc zero) e = omega arith
depth-falls (suc (suc zero)) (suc (suc d)) e = absurd (ground arith)
depth-falls (suc (suc (suc zero))) zero e = absurd (ground arith)
depth-falls (suc (suc (suc zero))) (suc zero) e = omega arith
depth-falls (suc (suc (suc zero))) (suc (suc d)) e = absurd (ground arith)
depth-falls (suc (suc (suc (suc n)))) d e = cc

pub depth-IsForest : IsForest sample_graph 4 depth
depth-IsForest = record { bound = depth-lt; falls = depth-falls }
