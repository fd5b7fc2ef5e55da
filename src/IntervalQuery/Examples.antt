-- ===== src/IntervalQuery/Examples.antt =====
-- The theorems on the readers of the map at a small map.
use cape_implementation.Prelude.{
  ℕ, ◌≤◌, ◌≡◌, ◌≢◌, ◌↔◌, refl, true, false, none, some, List, [], ◌∷◌, arith, ◌==◌, elem,
  if◌then◌else◌,
}
use cape_implementation.Offset.{add, sub}
use cape_implementation.IntervalMap.{Interval, Entry, Mapping, lower_bound}
use cape_implementation.IntervalMap.Cut.{IsValid}
use cape_implementation.IntervalMap.Fill.{holds, within}
use cape_implementation.IntervalQuery.{
  add_all_values, overlaps_by, overlaps, full_loop, adjoins, overlaps_full_by, overlaps_full,
  shift_le, le, insert_all, key_overlaps, gather_loop, gather, uncovered_loop, uncovered_from,
  uncovered, intersection,
}
use cape_implementation.IntervalQuery.Gather.{Byte, gather_correct}
use cape_implementation.IntervalQuery.Overlap.{is_covered, overlaps_misses}
use cape_implementation.IntervalQuery.Uncovered.{inside, uncovered_correct}
use cape_implementation.IntervalQuery.Several.{update_keeps_last, intersection_hangs}

abbrev entry : ℕ → ℕ → List ℕ → Entry
entry s e vs = record { start = s; end = e; values = vs }

abbrev span : ℕ → ℕ → Interval
span s e = record { start = s; end = e }

abbrev near : Entry
near = entry 0 9 (1 ∷ [])

abbrev far : Entry
far = entry 20 29 (2 ∷ [])

abbrev sample : Mapping
sample = near ∷ far ∷ []

sample-ne-nil : sample ≢ []
sample-ne-nil e = ground arith

gathers : gather (span 5 24) sample ≡ some (1 ∷ 2 ∷ [])
unfolding gather le shift_le lower_bound gather_loop key_overlaps insert_all
gathers = refl

gaps : uncovered (span 5 40) sample ≡ span 10 19 ∷ span 30 40 ∷ []
unfolding uncovered le shift_le lower_bound uncovered_from uncovered_loop add sub
gaps = refl

gather_correct_example :
    (s : List ℕ) × (gather (span 5 24) sample ≡ some s)
    × ((x : ℕ) → (elem x s ≡ true) ↔ Byte (span 5 24) x sample)
gather_correct_example = gather_correct (span 5 24) sample (omega arith) sample-ne-nil (omega arith)

sample-overlaps : overlaps (span 8 21) sample ≡ true
unfolding overlaps overlaps_by lower_bound
sample-overlaps = refl

overlaps_misses_example : (overlaps (span 5 6) sample ≡ false) × (is_covered sample 5 ≡ true)
overlaps_misses_example =
    overlaps_misses (span 5 6) [] near far [] (omega arith) (omega arith) (omega arith)
      (omega arith)

sample_full : overlaps_full (span 20 25) sample ≡ true
unfolding overlaps_full overlaps_full_by full_loop adjoins lower_bound
sample_full = refl

uncovered_correct_example :
    ((inside (uncovered (span 5 40) sample) 12 ≡ true) → (5 ≤ 12) × (is_covered sample 12 ≡ false))
    × (5 ≤ 12
        → 12 ≤ 40
        → is_covered sample 12 ≡ false
        → inside (uncovered (span 5 40) sample) 12 ≡ true)
uncovered_correct_example = uncovered_correct (span 5 40) sample 12 (omega arith) (omega arith)

update_keeps_last_example :
    IsValid (add_all_values (span 5 24) (7 ∷ 8 ∷ []) true sample).0
    × ((b x : ℕ)
        → holds (add_all_values (span 5 24) (7 ∷ 8 ∷ []) true sample).0 b x
          ≡ (if within 5 24 b then 8 == x else holds sample b x))
update_keeps_last_example =
    update_keeps_last (span 5 24) (omega arith) (7 ∷ []) 8 sample (omega arith)

intersection_hangs_example : intersection 1000 sample sample ≡ none
intersection_hangs_example =
    intersection_hangs 1000 near (far ∷ []) (near ∷ []) far [] (omega arith)
