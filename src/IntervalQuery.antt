-- ===== src/IntervalQuery.antt =====
-- include/dg/ADT/DisjunctiveIntervalMap.h: the operations that read an interval map, those that
-- write several values, and `DiscreteInterval`.
pub mod Find
pub mod Gather
pub mod Uncovered
pub mod Overlap
pub mod Several
mod Examples
use cape_implementation.Prelude.{
  ℕ, zero, suc, min, max, Bool, true, false, ◌&&◌, ◌||◌, not, Option, none, some, List, [], ◌∷◌,
  ◌++◌, ltb, leb, ◌==◌, if◌then◌else◌, length, last?, elem, insert,
}
use cape_implementation.Offset.{add, sub}
use cape_implementation.IntervalMap.{Interval, Entry, Mapping, lower_bound, add_one}

-- `DiscreteInterval::length`
pub interval_length : Interval → ℕ
interval_length i = add (sub i.end i.start) 1

-- `DiscreteInterval::overlaps`, of the key of an entry with `i`.
pub key_overlaps : Entry → Interval → Bool
key_overlaps e i = (leb e.start i.start && leb i.start e.end) || leb e.start i.end

-- `DiscreteInterval::covers`
pub key_covers : Entry → Interval → Bool
key_covers e i = leb e.start i.start && leb i.end e.end

-- `add` and `update` of a container of values
pub add_all_values : Interval → List ℕ → Bool → Mapping → Mapping × Bool
add_all_values i [] update m = (m, false)
add_all_values i (v ∷ vs) update m =
    let (m', changed) = add_one i v update m in
    let (m'', changed') = add_all_values i vs update m' in (m'', changed || changed')

-- `addAll`: the value is added to every interval of the map.
pub add_all : ℕ → Mapping → Mapping × Bool
add_all v [] = ([], false)
add_all v (e ∷ m) =
    let (m', changed) = add_all v m in
    (record e { values = insert v e.values } ∷ m', not (elem v e.values) || changed)

-- `overlaps`
pub overlaps_by : Interval → Mapping → Mapping → Bool
overlaps_by i before [] = elim (last? before) [ none ↦ false | some e ↦ leb i.start e.end ]
overlaps_by i before (ge ∷ rest) = leb ge.start i.end

pub overlaps : Interval → Mapping → Bool
overlaps i m = overlaps_by i (lower_bound i.start m).0 (lower_bound i.start m).1

-- The loop of `overlapsFull`; `last_end` is the end of the entry before the list.
pub full_loop : Interval → ℕ → Mapping → Bool
full_loop i last_end [] = leb i.end last_end
full_loop i last_end (ge ∷ rest) =
    let more = full_loop i ge.end rest in
    if ltb last_end i.end then (if ge.start == add last_end 1 then more else false) else true

-- The test on the entry before `ge` when `ge` starts behind the start of the interval.
pub adjoins : Option Entry → Entry → Bool
adjoins none ge = false
adjoins (some prev) ge = prev.end == sub ge.start 1

pub overlaps_full_by : Interval → Mapping → Mapping → Bool
overlaps_full_by i before [] = elim (last? before) [ none ↦ false | some e ↦ leb i.end e.end ]
overlaps_full_by i before (ge ∷ rest) =
    if ltb i.start ge.start
    then (adjoins (last? before) ge && full_loop i ge.end rest)
    else full_loop i ge.end rest

-- `overlapsFull`
pub overlaps_full : Interval → Mapping → Bool
overlaps_full i m = overlaps_full_by i (lower_bound i.start m).0 (lower_bound i.start m).1

-- `_shift_le`: the list from the first entry that overlaps the interval on, or the empty list.
-- `none` is the decrement of the iterator of an empty map, which is undefined.
pub shift_le : Interval → Option Entry → Mapping → Option Mapping
shift_le i none [] = none
shift_le i (some last) [] = some (if leb i.start last.end then last ∷ [] else [])
shift_le i none (ge ∷ rest) = some (if ltb i.end ge.start then [] else ge ∷ rest)
shift_le i (some prev) (ge ∷ rest) = some (
    if leb i.start prev.end then prev ∷ ge ∷ rest else if ltb i.end ge.start then [] else ge ∷ rest)

-- `le`
pub le : Interval → Mapping → Option Mapping
le i m = shift_le i (last? (lower_bound i.start m).0) (lower_bound i.start m).1

pub insert_all : List ℕ → List ℕ → List ℕ
insert_all [] ret = ret
insert_all (v ∷ vs) ret = insert_all vs (insert v ret)

-- The loop of `gather`
pub gather_loop : Interval → Mapping → List ℕ → List ℕ
gather_loop i [] ret = ret
gather_loop i (it ∷ rest) ret =
    let more = gather_loop i rest (insert_all it.values ret) in
    if key_overlaps it i then more else ret

-- `gather`
pub gather : Interval → Mapping → Option (List ℕ)
gather i m = elim (le i m) [ none ↦ none | some from ↦ some (gather_loop i from []) ]

-- The loop of `uncovered`; `at` is `cur.start`.
pub uncovered_loop : Interval → ℕ → Mapping → List Interval
uncovered_loop i at [] = if leb at i.end then record { start = at; end = i.end } ∷ [] else []
uncovered_loop i at (it ∷ rest) =
    let more = uncovered_loop i (add it.end 1) rest in
    let tail = if leb i.end it.end then [] else more in
    if ltb at it.start then record { start = at; end = sub it.start 1 } ∷ tail else tail

pub uncovered_from : Interval → Mapping → List Interval
uncovered_from i [] = i ∷ []
uncovered_from i (it ∷ rest) =
    if ltb it.start i.start
    then (if leb i.end it.end then [] else uncovered_loop i (add it.end 1) rest)
    else uncovered_loop i i.start (it ∷ rest)

-- `uncovered`
pub uncovered : Interval → Mapping → List Interval
uncovered i m = elim (le i m) [ none ↦ i ∷ [] | some from ↦ uncovered_from i from ]

-- `std::set_intersection`
pub intersect_values : List ℕ → List ℕ → List ℕ
intersect_values [] ys = []
intersect_values (x ∷ xs) ys =
    if elem x ys then x ∷ intersect_values xs ys else intersect_values xs ys

-- The inner loop of `intersection`, which moves no iterator; `none` when the fuel is used up.
pub wait_for : ℕ → Entry → Entry → Option (Unit {0})
wait_for zero it rhs = none
wait_for (suc fuel) it rhs =
    let again = wait_for fuel it rhs in if ltb it.end rhs.start then again else some tt

abbrev pub key : Entry → Interval
key e = record { start = e.start; end = e.end }

-- The outer loop of `intersection` over the entries of the other map; `it` stays at the first entry.
pub intersect_loop : ℕ → Entry → Mapping → Mapping → Option Mapping
intersect_loop fuel it [] tmp = some tmp
intersect_loop fuel it (rhs ∷ rest) tmp =
    let shared : Interval = record { start = max it.start rhs.start; end = min it.end rhs.end } in
    let values = intersect_values it.values rhs.values in
    let tmp' =
      if key_overlaps it (key rhs) then (add_all_values shared values false tmp).0 else tmp in
    let more = intersect_loop fuel it rest tmp' in
    elim (wait_for fuel it rhs) [ none ↦ none | some _ ↦ more ]

-- `intersection`; the read of the first entry of an empty map is undefined, `none` here too.
pub intersection : ℕ → Mapping → Mapping → Option Mapping
intersection fuel m [] = some []
intersection fuel [] (rhs ∷ rest) = none
intersection fuel (it ∷ m) (rhs ∷ rest) = intersect_loop fuel it (rhs ∷ rest) []
