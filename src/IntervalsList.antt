-- ===== src/IntervalsList.antt =====
-- include/dg/ADT/IntervalsList.h: a list of intervals, which the sets of definition sites use.
pub mod Bytes
mod Examples
use cape_implementation.Prelude.{
  ℕ, min, max, Bool, true, false, ◌&&◌, Option, none, some, List, [], ◌∷◌, ltb, leb, if◌then◌else◌,
}
use cape_implementation.IntervalMap.{Interval}

-- `Interval::overlaps`
unfoldable pub ranges_overlap : Interval → Interval → Bool
ranges_overlap e i = leb e.start i.end && leb i.start e.end

-- The loop that moves `to`: the entry where it stops, and those behind.
unfoldable pub move_to : Interval → Interval → List Interval → Interval × List Interval
move_to i to [] = (to, [])
move_to i to (next ∷ rest) =
    let more = move_to i next rest in if ranges_overlap i to then more else (to, next ∷ rest)

-- `_replace_overlapping`, for the entry that `it` stands at.
unfoldable pub replace_overlapping : Interval → Interval → Interval × List Interval → List Interval
replace_overlapping i it (to, rest) =
    record { start = min it.start i.start; end = max to.end i.end } ∷ rest

-- What follows the first entry that overlaps; `none` is a read of the end of the list.
unfoldable pub replace_from : Interval → List Interval → Option (List Interval)
replace_from i [] = none
replace_from i (it ∷ rest) = some (replace_overlapping i it (move_to i it rest))

unfoldable pub after_entry : Interval → Option (List Interval) → Option (List Interval)
after_entry e none = none
after_entry e (some rest) = some (e ∷ rest)

-- The loop of `add`
unfoldable pub add_along : Interval → List Interval → Option (List Interval)
add_along i [] = some (i ∷ [])
add_along i (e ∷ rest) =
    let more = add_along i rest in
    if ranges_overlap i e
    then after_entry e (replace_from i rest)
    else if ltb i.end e.start
    then some (i ∷ e ∷ rest)
    else after_entry e more

-- `add`
unfoldable pub add_interval : Interval → List Interval → Option (List Interval)
add_interval i [] = add_along i (i ∷ [])
add_interval i (e ∷ rest) = add_along i (e ∷ rest)

-- The inner loop of `intersectWith`, which erases entries.
unfoldable pub erase_before : ℕ → List Interval → List Interval
erase_before s [] = []
erase_before s (e ∷ rest) = let more = erase_before s rest in if ltb e.end s then more else e ∷ rest

unfoldable pub trim : Interval → Interval → Interval
trim r e =
    if ranges_overlap e r then record { start = max e.start r.start; end = min e.end r.end } else e

unfoldable pub trim_first : Interval → List Interval → List Interval
trim_first r [] = []
trim_first r (e ∷ rest) = trim r e ∷ rest

-- The outer loop; it returns where no entry is left.
unfoldable pub intersect_rest : List Interval → List Interval → List Interval
intersect_rest [] xs = xs
intersect_rest (r ∷ rs) [] = []
intersect_rest (r ∷ rs) (x ∷ xs) = intersect_rest rs (trim_first r (erase_before r.start (x ∷ xs)))

-- `intersectWith`
unfoldable pub intersect_with : List Interval → List Interval → List Interval
intersect_with [] rs = []
intersect_with (x ∷ xs) rs = intersect_rest rs (x ∷ xs)
