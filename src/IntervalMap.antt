-- ===== src/IntervalMap.antt =====
-- include/dg/ADT/DisjunctiveIntervalMap.h: the map from disjunctive intervals of offsets to sets of
-- values, with `IntervalValueT` = `Offset`. Values (pointers in the source) are named by numbers.
-- A `std::map` ordered by the start of its key is the list of its entries in that order, and an
-- iterator is the list of the entries from its position on.
pub mod Cut
pub mod Split
pub mod Divide
pub mod Fill
pub mod Add
pub mod Changed
mod Examples
use cape_implementation.Prelude.{
  ℕ, Bool, true, false, ◌&&◌, ◌||◌, not, Option, none, some, List, [], ◌∷◌, ◌++◌, ltb, leb, ◌==◌,
  if◌then◌else◌, length, last?, elem, insert,
}
use cape_implementation.Offset.{add, sub}

-- `DiscreteInterval`
pub record Interval : Type 0 where
  pub start : ℕ
  pub end : ℕ

-- An element of `_mapping`: the interval is the key, ordered by its start.
pub record Entry : Type 0 where
  pub start : ℕ
  pub end : ℕ
  pub values : List ℕ

abbrev pub Mapping : Type 0
Mapping = List Entry

-- `lower_bound`: what lies before the first entry that starts at `s` or later, and the rest.
unfoldable pub lower_bound : ℕ → Mapping → Mapping × Mapping
lower_bound s [] = ([], [])
lower_bound s (e ∷ m) =
    let (before, from) = lower_bound s m in
    if ltb e.start s then (e ∷ before, from) else ([], e ∷ m)

-- `emplace` and `emplace_hint`: an entry with the same start stays.
pub emplace : Entry → Mapping → Mapping
emplace x [] = x ∷ []
emplace x (e ∷ m) =
    if ltb x.start e.start then x ∷ e ∷ m else if x.start == e.start then e ∷ m else e ∷ emplace x m

pub erase : ℕ → Mapping → Mapping
erase k [] = []
erase k (e ∷ m) = if e.start == k then m else e ∷ erase k m

abbrev pub lower : Entry → ℕ → Entry
lower e where_ = record e { end = where_ }

abbrev pub upper : Entry → ℕ → Entry
upper e where_ = record e { start = add where_ 1 }

-- `splitIntervalHint`: the entry is replaced by its two parts, which keep its values.
pub split_interval : Mapping → Entry → ℕ → Mapping
split_interval m e where_ = emplace (upper e where_) (emplace (lower e where_) (erase e.start m))

-- The loop of `splitExtBorders`: the first entry from `it` on that goes over the end of `I`.
pub crossing : Interval → Mapping → Option Entry
crossing i [] = none
crossing i (it ∷ rest) =
    let later = crossing i rest in
    if leb it.start i.end then (if ltb i.end it.end then some it else later) else none

-- The case of `splitExtBorders` where every entry starts before `I`.
pub split_last : Interval → Entry → Mapping → Mapping × Bool
split_last i e m =
    let (m', last, changed) =
      if ltb i.end e.end then (split_interval m e i.end, lower e i.end, true) else (m, e, false) in
    if leb i.start last.end then (split_interval m' last (sub i.start 1), true) else (m', changed)

-- The overlap with the entry before `ge`. `start ≤ end` holds for every interval, by the assertion
-- of its constructor: where the second test of the source holds the first does too, and the entry
-- behind the lower part is the upper part.
pub split_prev : Interval → Entry → Mapping → Bool → Mapping × Bool
split_prev i prev m changed =
    if leb i.start prev.end
    then (let halved = split_interval m prev (sub i.start 1) in
        if ltb i.end prev.end
        then (split_interval halved (upper prev (sub i.start 1)) i.end, true)
        else (halved, true))
    else (m, changed)

pub split_end : Interval → Mapping → Mapping → Mapping × Bool
split_end i ge m = elim (crossing i ge) [
  | none ↦ (m, false)
  | some it ↦ (split_interval m it i.end, true)
]

pub split_before : Interval → Option Entry → Mapping → Bool → Mapping × Bool
split_before i none m changed = (m, changed)
split_before i (some prev) m changed = split_prev i prev m changed

-- The case of `splitExtBorders` where `ge` is an entry; `m` is the whole map.
pub split_found : Interval → Mapping → Mapping → Mapping × Bool
split_found i ge m =
    let (m', changed) = split_end i ge m in
    split_before i (last? (lower_bound i.start m').0) m' changed

pub split_only : Interval → Option Entry → Mapping → Mapping × Bool
split_only i none m = (m, false)
split_only i (some last) m = split_last i last m

pub split_by : Interval → Mapping → Mapping → Mapping → Mapping × Bool
split_by i before [] m = split_only i (last? before) m
split_by i before (it ∷ rest) m = split_found i (it ∷ rest) m

pub split_ext_borders : Interval → Mapping → Mapping × Bool
split_ext_borders i m = split_by i (lower_bound i.start m).0 (lower_bound i.start m).1 m

-- `_addValue`
pub add_value : ℕ → Bool → Entry → Entry × Bool
add_value val update e =
    if update
    then (if length e.values == 1 && elem val e.values
        then (e, false)
        else (record e { values = val ∷ [] }, true))
    else (record e { values = insert val e.values }, not (elem val e.values))

-- The loop has come to the end of the map, or to an entry that starts behind `stop`.
abbrev pub starts_after : Mapping → ℕ → Bool
starts_after [] stop = true
starts_after (it ∷ rest) stop = ltb stop it.start

-- The end of a round of the loop of `_add` at an entry that ends at `at`: the loop breaks, or it
-- adds what is left behind the last covered entry, or it goes on with `more`.
pub next_round : ℕ → ℕ → ℕ → Mapping → Mapping × Bool → Mapping × Bool
next_round stop val at its more =
    if at == stop
    then (its, false)
    else if starts_after its stop
    then (record { start = add at 1; end = stop; values = val ∷ [] } ∷ its, true)
    else more

-- The loop of `_add` over the entries from the iterator on, with `at` for `rest.start`. A first
-- round at an entry may add the gap before it; the next one is then at the entry itself.
pub fill : ℕ → ℕ → Bool → ℕ → Mapping → Mapping × Bool
fill stop val update at [] = ([], false)
fill stop val update at (it ∷ its) =
    let (it', changed) = add_value val update it in
    let (its', changed') =
      next_round stop val it.end its (fill stop val update (add it.end 1) its) in
    if ltb at it.start
    then (record { start = at; end = sub it.start 1; values = val ∷ [] } ∷ it' ∷ its', true)
    else (it' ∷ its', changed || changed')

abbrev pub singleton : Interval → ℕ → Entry
singleton i val = record { start = i.start; end = i.end; values = val ∷ [] }

-- The part of `_add` behind `splitExtBorders`; `from` is the list from the iterator on.
pub add_from : Interval → ℕ → Bool → Mapping → Mapping → Mapping → Bool → Mapping × Bool
add_from i val update before from m changed =
    if starts_after from i.end
    then (emplace (singleton i val) m, true)
    else let (filled, changed') = fill i.end val update i.start from in
      (before ++ filled, changed || changed')

pub add_aligned : Interval → ℕ → Bool → Mapping → Bool → Mapping × Bool
add_aligned i val update m changed =
    add_from i val update (lower_bound i.start m).0 (lower_bound i.start m).1 m changed

-- `_add`; with `update` the values in the interval are rewritten.
pub add_one : Interval → ℕ → Bool → Mapping → Mapping × Bool
add_one i val update [] = (singleton i val ∷ [], true)
add_one i val update (e ∷ m) =
    let (m', changed) = split_ext_borders i (e ∷ m) in add_aligned i val update m' changed
