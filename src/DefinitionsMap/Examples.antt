-- ===== src/DefinitionsMap/Examples.antt =====
-- A block with two nodes: node 5 defines the bytes 0 to 7 of the object 1, node 6 overwrites the bytes 4 to 7.
-- The object 9 is the unknown memory.
use cape_implementation.Prelude.{
  ℕ, ◌||◌, ◌≡◌, refl, arith, true, false, List, [], ◌∷◌, some, none, Bool-cases, inl, inr, ◌==◌,
}
use cape_implementation.Offset.{unknown, is_unknown, add, sub}
use cape_implementation.DefSite.{DefSite, get_interval}
use cape_implementation.IntervalMap.Cut.{IsValid}
use cape_implementation.IntervalMap.Fill.{within}
use cape_implementation.IntervalQuery.Uncovered.{inside}
use cape_implementation.DefinitionsMap.{
  DefinitionsMap, find_target, Definitions, Annotations, update_definitions, get_definitions,
  add_map, at_target, undefined_intervals,
}
use cape_implementation.DefinitionsMap.Held.{IsStored, Fits, held}
use cape_implementation.DefinitionsMap.Join.{IsMap, held-add_map}
use cape_implementation.DefinitionsMap.Update.{IsUpdated, update_definitions-IsUpdated}
use cape_implementation.DefinitionsMap.Get.{
  IsAnswer, get_definitions_correct, undefined_intervals_miss,
}

abbrev whole_object : DefSite
whole_object = record { target = 1; offset = 0; len = 8 }

abbrev upper_half : DefSite
upper_half = record { target = 1; offset = 4; len = 4 }

abbrev no_definitions : Definitions
no_definitions = record {
  processed = false;
  definitions = [];
  kills = [];
  unknown_writes = 3 ∷ [];
  unknown_reads = [];
}

whole_object-Fits : Fits whole_object
unfolding get_interval is_unknown add sub
whole_object-Fits = record {
  ordered = omega arith;
  known = omega arith;
  word = omega arith;
  not_last = omega arith;
}

upper_half-Fits : Fits upper_half
unfolding get_interval is_unknown add sub
upper_half-Fits = record {
  ordered = omega arith;
  known = omega arith;
  word = omega arith;
  not_last = omega arith;
}

empty-IsStored : IsStored []
unfolding find_target
empty-IsStored t m e = absurd (ground (arith, e))

abbrev first_node : Annotations
first_node = record { defines = whole_object ∷ []; overwrites = []; uses = [] }

abbrev second_node : Annotations
second_node = record { defines = []; overwrites = upper_half ∷ []; uses = [] }

abbrev after_first : Definitions
after_first = update_definitions 9 first_node 5 no_definitions

after_first-IsUpdated : IsUpdated 9 5 first_node no_definitions after_first
after_first-IsUpdated =
    update_definitions-IsUpdated 9 5 first_node no_definitions (whole_object-Fits, tt) tt (refl, tt)
      empty-IsStored empty-IsStored

update_definitions-IsUpdated_example :
    IsUpdated 9 6 second_node after_first (update_definitions 9 second_node 6 after_first)
update_definitions-IsUpdated_example =
    update_definitions-IsUpdated 9 6 second_node after_first tt (upper_half-Fits, tt) tt
      after_first-IsUpdated.keeps_stored.0 after_first-IsUpdated.keeps_stored.1

get_definitions_correct_example :
    (found : List ℕ) × (get_definitions upper_half after_first ≡ some found)
    × IsAnswer upper_half after_first found
get_definitions_correct_example =
    get_definitions_correct upper_half after_first upper_half-Fits
      after_first-IsUpdated.keeps_stored.0

abbrev somewhere : DefSite
somewhere = record { target = 2; offset = unknown; len = 4 }

nothing_found : find_target 2 [] ≡ none
unfolding find_target
nothing_found = refl

undefined_intervals_miss_example :
    (inside (undefined_intervals somewhere []) 5 ≡ false)
    × (within (get_interval somewhere).0 (get_interval somewhere).1 5 ≡ true)
undefined_intervals_miss_example =
    undefined_intervals_miss somewhere [] 5 refl nothing_found (omega arith)

abbrev left_map : DefinitionsMap
left_map = (1, record { start = 0; end = 7; values = 5 ∷ [] } ∷ []) ∷ []

abbrev right_map : DefinitionsMap
right_map =
    (1, record { start = 4; end = 11; values = 6 ∷ [] } ∷ [])
    ∷ (2, record { start = 0; end = 3; values = 6 ∷ [] } ∷ [])
    ∷ []

left_map-Valid : (t : ℕ) → IsValid (at_target t left_map)
unfolding at_target find_target
left_map-Valid t = elim (Bool-cases (1 == t)) [
  | inl same ↦ rw same (
      (
        omega arith,
        record {
          ordered = omega arith;
          known = omega arith;
          word = omega arith;
          not_last = omega arith;
        },
        tt,
      ))
  | inr other ↦ rw other tt
]

right_map-IsMap : IsMap right_map
unfolding find_target
right_map-IsMap = (
  refl,
  (
    omega arith,
    record {
      ordered = omega arith;
      known = omega arith;
      word = omega arith;
      not_last = omega arith;
    },
    tt,
  ),
  (
    refl,
    (
      omega arith,
      record {
        ordered = omega arith;
        known = omega arith;
        word = omega arith;
        not_last = omega arith;
      },
      tt,
    ),
    tt,
  ),
)

held-add_map_example :
    held (add_map right_map left_map).0 1 5 6 ≡ (held right_map 1 5 6 || held left_map 1 5 6)
held-add_map_example = held-add_map right_map left_map right_map-IsMap left_map-Valid 1 5 6
