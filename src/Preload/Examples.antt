-- ===== src/Preload/Examples.antt =====
-- The collection of functions where block 0 calls function 1, which calls itself and function 2.
use cape_implementation.Prelude.{
  ℕ, zero, suc, ◌≡◌, ◌↔◌, refl, true, some, List, [], ◌∷◌, arith, ◌==◌, ==_iff, elem,
}
use cape_implementation.Worklist.Ends.{Below}
use cape_implementation.Preload.{Bitcode, Names, emit, each, preload_call, preload_bb}
use cape_implementation.Preload.Closure.{Called, preload_bb_correct}

calls_of : ℕ → List ℕ
calls_of zero = 1 ∷ 9 ∷ []
calls_of (suc zero) = 1 ∷ 2 ∷ []
calls_of (suc (suc b)) = []

abbrev sample : Bitcode
sample = record { calls = calls_of; blocks = λ f. f ∷ []; is_debug = λ f. f == 9 }

abbrev fresh : Names
fresh = record { funcs = []; emitted = [] }

abbrev loaded : Names
loaded = record { funcs = 2 ∷ 1 ∷ []; emitted = 2 ∷ 1 ∷ [] }

loads : preload_bb sample 3 0 fresh ≡ some loaded
unfolding preload_bb each preload_call emit calls_of
loads = refl

few : (b : ℕ) → Below 10 (calls_of b)
unfolding calls_of
few zero a p = ground (arith, ==_iff 1 a, ==_iff 9 a)
few (suc zero) a p = ground (arith, ==_iff 1 a, ==_iff 2 a)
few (suc (suc b)) a p = cc

preload_bb_correct_example :
    (elem 2 (2 ∷ 1 ∷ []) ≡ true) ↔ Called sample (λ g. elem g (calls_of 0) ≡ true) 2
preload_bb_correct_example = preload_bb_correct sample 3 0 fresh loaded loads refl 2
