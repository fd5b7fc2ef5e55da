-- ===== src/NumberSet/Examples.antt =====
-- Tests and instances at concrete sets.
use cape_implementation.Prelude.{◌≡◌, true, false, List, [], ◌∷◌}
use cape_implementation.NumberSet.Refine.{
  SetCall, add_call, has_call, empty_call, size_call, truth, number, number_set_refines, run,
}
use cape_implementation.NumberSet.{small}

abbrev calls : List SetCall
calls =
    add_call 3 ∷ add_call 70 ∷ add_call 3 ∷ has_call 70 ∷ has_call 64 ∷ size_call ∷ empty_call ∷ []

number_set_refines_example :
    run calls (small 0)
    ≡ truth true ∷ truth true ∷ truth false ∷ truth true ∷ truth false ∷ number 2 ∷ truth false ∷ []
number_set_refines_example = number_set_refines calls
