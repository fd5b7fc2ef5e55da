-- ===== src/Bitvector/Examples.antt =====
-- Tests and instances at concrete vectors.
use cape_implementation.Prelude.{
  ℕ, ◌+◌, ◌*◌, ◌≡◌, arith, true, false, List, [], ◌∷◌, none, some, length, elem,
}
use cape_implementation.Bits.{word_bits}
use cape_implementation.Bits.Growing.{Growing}
use cape_implementation.Bitvector.{Bitvector, get, size, begin, numbers_from, set}
use cape_implementation.Bitvector.Members.{set-WellFormed}
use cape_implementation.Bitvector.Iterator.{iteration_correct}
use cape_implementation.Bitvector.Refine.{
  VectorCall, get_call, set_call, unset_call, union_call, run, vector_refines, set_all,
}

abbrev two_buckets : Bitvector
two_buckets = set_all (70 ∷ 3 ∷ []) []

iteration_correct_example :
    Growing 0 (numbers_from (1 + word_bits * length two_buckets) (begin two_buckets))
    × ((j : ℕ)
        → elem j (numbers_from (1 + word_bits * length two_buckets) (begin two_buckets))
          ≡ get j two_buckets)
    × length (numbers_from (1 + word_bits * length two_buckets) (begin two_buckets))
      ≡ size two_buckets
iteration_correct_example =
    iteration_correct two_buckets (1 + word_bits * length two_buckets)
      (set-WellFormed 3 (set 70 []).1 (set-WellFormed 70 [] tt)) (omega arith)

abbrev calls : List VectorCall
calls =
    set_call 70
    ∷ set_call 3
    ∷ union_call (3 ∷ 5 ∷ [])
    ∷ unset_call 70
    ∷ get_call 70
    ∷ get_call 5
    ∷ set_call 3
    ∷ []

vector_refines_example :
    run calls []
    ≡ some false ∷ some false ∷ some true ∷ none ∷ some false ∷ some true ∷ some true ∷ []
vector_refines_example = vector_refines calls
