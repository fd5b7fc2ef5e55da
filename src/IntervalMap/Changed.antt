-- ===== src/IntervalMap/Changed.antt =====
-- The flag that `add` and `update` return.
use cape_implementation.Prelude.{
  ◌≡◌, refl, Bool, false, Option, none, some, [], ◌∷◌, ◌++◌, arith, ℕ, last?, ◌∙◌,
}
use cape_implementation.IntervalMap.{
  Interval, Entry, Mapping, lower_bound, split_last, split_prev, split_end, split_before,
  split_found, split_only, split_by, split_ext_borders, add_value, next_round, fill, add_from,
  add_aligned, add_one,
}
use cape_implementation.Offset.{add}
use cape_implementation.IntervalMap.Divide.{lower_bound-append}

split_end_same :
    (i : Interval) (ge m : Mapping) → (split_end i ge m).1 ≡ false → (split_end i ge m).0 ≡ m
unfolding split_end
split_end_same i ge m h = ground arith

split_before_changed :
    (i : Interval) (o : Option Entry) (m : Mapping) (c : Bool)
    → (split_before i o m c).1 ≡ false
    → (c ≡ false) × ((split_before i o m c).0 ≡ m)
unfolding split_before split_prev
split_before_changed i none m c h = (h, refl)
split_before_changed i (some prev) m c h = ground arith

split_only_same :
    (i : Interval) (o : Option Entry) (m : Mapping)
    → (split_only i o m).1 ≡ false
    → (split_only i o m).0 ≡ m
unfolding split_only split_last
split_only_same i none m h = refl
split_only_same i (some e) m h = ground arith

split_by_same :
    (i : Interval) (before ge m : Mapping)
    → (split_by i before ge m).1 ≡ false
    → (split_by i before ge m).0 ≡ m
unfolding split_by split_found
split_by_same i before [] m h = split_only_same i (last? before) m h
split_by_same i before (it ∷ rest) m h =
    let ge = it ∷ rest in
    let (c, same) =
      split_before_changed i (last? (lower_bound i.start (split_end i ge m).0).0)
        (split_end i ge m).0 (split_end i ge m).1 h in
    same ∙ split_end_same i ge m c

add_value_same :
    (v : ℕ) (u : Bool) (e : Entry) → (add_value v u e).1 ≡ false → (add_value v u e).0 ≡ e
unfolding add_value
add_value_same v u e h = ground arith

fill_same :
    (stop v : ℕ) (u : Bool) (at : ℕ) (m : Mapping)
    → (fill stop v u at m).1 ≡ false
    → (fill stop v u at m).0 ≡ m
unfolding fill next_round
fill_same stop v u at [] h = refl
fill_same stop v u at (it ∷ its) h =
    ground (arith, add_value_same v u it, fill_same stop v u (add it.end 1) its)

add_from_same :
    (i : Interval) (v : ℕ) (u : Bool) (before from m : Mapping) (c : Bool)
    → before ++ from ≡ m
    → (add_from i v u before from m c).1 ≡ false
    → (c ≡ false) × ((add_from i v u before from m c).0 ≡ m)
unfolding add_from
add_from_same i v u before from m c e h = ground (arith, fill_same i.end v u i.start from)

-- Where `add` or `update` says that nothing changed, the map is the one of before: no value was
-- added, and no interval was split. This holds for every map and interval.
pub add_one_unchanged :
    (i : Interval) (val : ℕ) (update : Bool) (m : Mapping)
    → (add_one i val update m).1 ≡ false
    → (add_one i val update m).0 ≡ m
unfolding add_one add_aligned split_ext_borders
add_one_unchanged i val update [] h = cc
add_one_unchanged i val update (e ∷ m) h =
    let m' = e ∷ m in
    let s = (split_by i (lower_bound i.start m').0 (lower_bound i.start m').1 m') in
    let (c, same) =
      add_from_same i val update (lower_bound i.start s.0).0 (lower_bound i.start s.0).1 s.0 s.1
        (lower_bound-append i.start s.0) h in
    same ∙ split_by_same i (lower_bound i.start m').0 (lower_bound i.start m').1 m' c
