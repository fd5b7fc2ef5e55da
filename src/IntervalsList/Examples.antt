-- ===== src/IntervalsList/Examples.antt =====
-- Lists of intervals on concrete inputs.
use cape_implementation.Prelude.{◌≡◌, ◌++◌, refl, arith, true, false, none, [], ◌∷◌}
use cape_implementation.IntervalMap.{Interval}
use cape_implementation.IntervalsList.{
  ranges_overlap, add_interval, erase_before, trim, trim_first, intersect_rest, intersect_with,
}
use cape_implementation.IntervalsList.Bytes.{add_interval_reads_end}

abbrev low : Interval
low = record { start = 0; end = 3 }

abbrev high : Interval
high = record { start = 8; end = 11 }

abbrev over_high : Interval
over_high = record { start = 10; end = 15 }

low_apart : ranges_overlap over_high low ≡ false
unfolding ranges_overlap
low_apart = refl

high_overlaps : ranges_overlap over_high high ≡ true
unfolding ranges_overlap
high_overlaps = refl

add_interval_reads_end_example :
    (add_interval over_high ((low ∷ []) ++ high ∷ []) ≡ none) × (add_interval over_high [] ≡ none)
add_interval_reads_end_example =
    add_interval_reads_end over_high (low ∷ []) high (omega arith)
      (omega arith, omega arith, (omega arith, omega arith, tt)) (ground (arith, low_apart))
      high_overlaps

-- The second interval of the other list erases what the first one left.
intersect_loses :
    intersect_with
      (record { start = 0; end = 10 } ∷ [])
      (record { start = 0; end = 1 } ∷ record { start = 5; end = 6 } ∷ [])
    ≡ []
unfolding intersect_with intersect_rest erase_before trim_first trim ranges_overlap
intersect_loses = refl
