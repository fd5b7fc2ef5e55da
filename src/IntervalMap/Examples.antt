-- ===== src/IntervalMap/Examples.antt =====
-- Tests of the interval map on a small map, and the theorems at it.
use cape_implementation.Prelude.{ℕ, ◌≡◌, refl, true, false, List, [], ◌∷◌, arith}
use cape_implementation.Offset.{add, sub}
use cape_implementation.IntervalMap.{
  Interval, Entry, Mapping, lower_bound, emplace, erase, split_interval, crossing, split_last,
  split_prev, split_end, split_before, split_found, split_only, split_by, split_ext_borders,
  add_value, next_round, fill, add_from, add_aligned, add_one,
}
use cape_implementation.IntervalMap.Cut.{cut}
use cape_implementation.IntervalMap.Split.{split_ext_borders-cut}
use cape_implementation.IntervalMap.Add.{IsWritten, add_one-IsWritten}

abbrev entry : ℕ → ℕ → List ℕ → Entry
entry s e vs = record { start = s; end = e; values = vs }

abbrev span : ℕ → ℕ → Interval
span s e = record { start = s; end = e }

-- 0-9 and 20-29, with a gap between.
abbrev sample : Mapping
sample = entry 0 9 (1 ∷ []) ∷ entry 20 29 (2 ∷ []) ∷ []

add_runs : add_one (span 5 24) 3 false sample ≡ (
  entry 0 4 (1 ∷ [])
      ∷ entry 5 9 (1 ∷ 3 ∷ [])
      ∷ entry 10 19 (3 ∷ [])
      ∷ entry 20 24 (2 ∷ 3 ∷ [])
      ∷ entry 25 29 (2 ∷ [])
      ∷ [],
  true,
)
unfolding add_one add_aligned add_from fill next_round add_value split_ext_borders split_by
    split_found split_only split_before split_end split_prev split_last crossing split_interval
    erase emplace lower_bound add sub
add_runs = refl

update_inside : add_one (span 3 4) 7 true sample ≡ (
  entry 0 2 (1 ∷ []) ∷ entry 3 4 (7 ∷ []) ∷ entry 5 9 (1 ∷ []) ∷ entry 20 29 (2 ∷ []) ∷ [],
  true,
)
unfolding add_one add_aligned add_from fill next_round add_value split_ext_borders split_by
    split_found split_only split_before split_end split_prev split_last crossing split_interval
    erase emplace lower_bound add sub
update_inside = refl

split_ext_borders-cut_example : (split_ext_borders (span 5 24) sample).0 ≡ cut 5 (cut 25 sample)
split_ext_borders-cut_example = split_ext_borders-cut (span 5 24) sample (omega arith) (omega arith)

add_one-IsWritten_example :
    IsWritten (span 5 24) 3 false sample (add_one (span 5 24) 3 false sample).0
add_one-IsWritten_example = add_one-IsWritten (span 5 24) 3 false sample (omega arith) (omega arith)

nothing_new : (add_one (span 20 29) 2 false sample).1 ≡ false
unfolding add_one add_aligned add_from fill next_round add_value split_ext_borders split_by
    split_found split_only split_before split_end split_prev split_last crossing split_interval
    erase emplace lower_bound add sub
nothing_new = refl
