-- ===== src/IntervalQuery/Several.antt =====
-- Writes of several values, `addAll`, and `intersection`.
use cape_implementation.Prelude.{
  ℕ, zero, suc, ◌<◌, ◌≡◌, refl, true, false, ◌&&◌, ◌||◌, Option, none, some, List, [], ◌∷◌, ◌++◌,
  arith, ◌==◌, if◌then◌else◌, elem, elem-insert,
}
use cape_implementation.IntervalMap.{Interval, Entry, Mapping, add_one}
use cape_implementation.IntervalMap.Cut.{IsFit, IsValidFrom, IsValid}
use cape_implementation.IntervalMap.Fill.{holds, within}
use cape_implementation.IntervalMap.Add.{add_one-IsWritten}
use cape_implementation.IntervalQuery.{
  add_all_values, add_all, wait_for, intersect_loop, intersection,
}
use cape_implementation.IntervalQuery.Overlap.{is_covered}

module _ (i : Interval) (fit : IsFit i.start i.end) where
  -- `add` of a container, on a valid map: the map stays valid, the bytes of the interval hold each of
  -- the values beside the old ones, and the other bytes what they held.
  pub add_all_values_correct :
      (vs : List ℕ) (m : Mapping)
      → IsValid m
      → IsValid (add_all_values i vs false m).0
        × ((b x : ℕ)
            → holds (add_all_values i vs false m).0 b x
              ≡ (if within i.start i.end b then (elem x vs || holds m b x) else holds m b x))
  unfolding add_all_values
  add_all_values_correct [] m v = (v, λ b x. ground arith)
  add_all_values_correct (y ∷ vs) m v =
      let w = add_one-IsWritten i y false m fit v in
      let (valid, bytes) = add_all_values_correct vs (add_one i y false m).0 w.valid in
      (valid, λ b x. ground (arith, bytes b x, w.bytes b x))

  -- `update` of a container, on a valid map: each value overwrites the one before it, so the bytes
  -- of the interval hold the last value alone.
  pub update_keeps_last :
      (vs : List ℕ) (last : ℕ) (m : Mapping)
      → IsValid m
      → IsValid (add_all_values i (vs ++ last ∷ []) true m).0
        × ((b x : ℕ)
            → holds (add_all_values i (vs ++ last ∷ []) true m).0 b x
              ≡ (if within i.start i.end b then last == x else holds m b x))
  unfolding add_all_values
  update_keeps_last [] last m v =
      let w = add_one-IsWritten i last true m fit v in (w.valid, w.bytes)
  update_keeps_last (y ∷ vs) last m v =
      let w = add_one-IsWritten i y true m fit v in
      let (valid, bytes) = update_keeps_last vs last (add_one i y true m).0 w.valid in
      (valid, λ b x. ground (arith, bytes b x, w.bytes b x))

-- `addAll` leaves the intervals, and every covered byte holds the value beside the old ones.
pub add_all_correct :
    (v lo : ℕ) (m : Mapping)
    → IsValidFrom lo m
    → IsValidFrom lo (add_all v m).0
      × ((b x : ℕ) → holds (add_all v m).0 b x ≡ ((is_covered m b && v == x) || holds m b x))
unfolding add_all
add_all_correct v lo [] h = (tt, λ b x. refl)
add_all_correct v lo (e ∷ m) h =
    let (valid, bytes) = add_all_correct v (suc e.end) m h.2 in
    ((h.0, h.1, valid), λ b x. ground (arith, bytes b x, elem-insert v x e.values))

waits_forever : (fuel : ℕ) (it rhs : Entry) → it.end < rhs.start → wait_for fuel it rhs ≡ none
unfolding wait_for
waits_forever zero it rhs h = refl
waits_forever (suc fuel) it rhs h = ground (arith, waits_forever fuel it rhs h)

either_none :
    (o : Option (Unit {0})) (more : Option Mapping)
    → more ≡ none
    → (elim o as (λ _. Option Mapping) [ none ↦ none | some _ ↦ more ]) ≡ none
either_none none more h = refl
either_none (some _) more h = h

loop_forever :
    (fuel : ℕ) (it : Entry) (front : Mapping) (rhs : Entry) (rest tmp : Mapping)
    → it.end < rhs.start
    → intersect_loop fuel it (front ++ rhs ∷ rest) tmp ≡ none
unfolding intersect_loop
loop_forever fuel it [] rhs rest tmp h = rw (waits_forever fuel it rhs h, intersect_loop)
loop_forever fuel it (x ∷ front) rhs rest tmp h =
    either_none (wait_for fuel it x) _ (loop_forever fuel it front rhs rest _ h)

-- `intersection` does not return, with any number of rounds, where some entry of the other map starts
-- behind the first entry of this one: its inner loop moves no iterator.
pub intersection_hangs :
    (fuel : ℕ) (it : Entry) (m front : Mapping) (rhs : Entry) (rest : Mapping)
    → it.end < rhs.start
    → intersection fuel (it ∷ m) (front ++ rhs ∷ rest) ≡ none
unfolding intersection
intersection_hangs fuel it m [] rhs rest h = loop_forever fuel it [] rhs rest [] h
intersection_hangs fuel it m (x ∷ front) rhs rest h = loop_forever fuel it (x ∷ front) rhs rest [] h
