-- ===== src/IntervalQuery/Overlap.antt =====
-- `overlaps` and `overlapsFull` against the bytes of the map.
use cape_implementation.Prelude.{
  ℕ, suc, ◌≤◌, ◌<◌, ◌≡◌, ◌≢◌, refl, sym, subst, ap, ◌∙◌, Bool, true, false, ◌||◌, [], ◌∷◌, ◌++◌,
  arith, All, last?,
}
use mathlib.Core.List.{append_assoc}
use cape_implementation.Offset.{unknown}
use cape_implementation.Offset.Saturation.{add-one_lem, sub-one_lem}
use cape_implementation.IntervalMap.{Interval, Entry, Mapping, lower_bound}
use cape_implementation.IntervalMap.Cut.{IsValidFrom, IsValid, covers}
use cape_implementation.IntervalMap.Fill.{within}
use cape_implementation.IntervalMap.Divide.{
  lower_bound-append, lower_bound_below, lower_bound_above, lower_bound_unique, around,
}
use cape_implementation.IntervalQuery.{
  overlaps_by, overlaps, full_loop, adjoins, overlaps_full_by, overlaps_full,
}

-- Some interval of the map covers the byte.
abbrev pub is_covered : Mapping → ℕ → Bool
is_covered [] b = false
is_covered (e ∷ m) b = covers e b || is_covered m b

pub covered-append :
    (front m : Mapping) (b : ℕ) → is_covered (front ++ m) b ≡ (is_covered front b || is_covered m b)
covered-append [] m b = refl
covered-append (e ∷ front) m b = ground (arith, covered-append front m b)

module _ (i : Interval) (fit : i.start ≤ i.end) where
  abbrev Touches : Mapping → Type 0
  Touches m = (b : ℕ) × (within i.start i.end b ≡ true) × (is_covered m b ≡ true)

  last_covers :
      (before : Mapping)
      → All (λ e. e.start < i.start) before
      → overlaps_by i before [] ≡ true
      → is_covered before i.start ≡ true
  unfolding overlaps_by
  last_covers [] a h = cc
  last_covers (e ∷ []) a h = ground arith
  last_covers (e ∷ x ∷ xs) a h = ground (arith, last_covers (x ∷ xs) a.1)

  overlaps_sound_by :
      (before ge : Mapping)
      → All (λ e. e.start < i.start) before
      → IsValidFrom i.start ge
      → overlaps_by i before ge ≡ true
      → Touches (before ++ ge)
  overlaps_sound_by before [] a w h = (
    i.start,
    ground arith,
    ground (arith, last_covers before a, covered-append before [] i.start),
  )
  overlaps_sound_by before (e ∷ m) a w h = (
    e.start,
    unfold overlaps_by in ground arith,
    ground (arith, covered-append before (e ∷ m) e.start),
  )

-- Where `overlaps` answers yes on a valid map, the map covers some byte of the interval.
pub overlaps_sound :
    (i : Interval) (m : Mapping)
    → i.start ≤ i.end
    → IsValid m
    → overlaps i m ≡ true
    → (b : ℕ) × (within i.start i.end b ≡ true) × (is_covered m b ≡ true)
unfolding overlaps
overlaps_sound i m f v h = subst (Touches i f) (lower_bound-append i.start m) (
    overlaps_sound_by i f (lower_bound i.start m).0 (lower_bound i.start m).1
      (lower_bound_below i.start m) (lower_bound_above i.start 0 m v) h)

-- An interval that begins inside an entry and ends before the next one is missed by `overlaps`,
-- although the map covers its first byte. This is so at every place of every valid map.
pub overlaps_misses :
    (i : Interval) (front : Mapping) (e next : Entry) (rest : Mapping)
    → IsValid (front ++ e ∷ next ∷ rest)
    → e.start < i.start
    → i.start ≤ e.end
    → i.end < next.start
    → (overlaps i (front ++ e ∷ next ∷ rest) ≡ false)
      × (is_covered (front ++ e ∷ next ∷ rest) i.start ≡ true)
unfolding overlaps overlaps_by
overlaps_misses i front e next rest v p q r =
    let (_, starts, _, w, _) = around 0 front e (next ∷ rest) v in
    let bound : lower_bound i.start (front ++ e ∷ next ∷ rest) ≡ (front ++ e ∷ [], next ∷ rest) =
      subst (λ x. lower_bound i.start x ≡ (front ++ e ∷ [], next ∷ rest))
        (append_assoc front (e ∷ []) (next ∷ rest))
        (lower_bound_unique i.start (front ++ e ∷ []) (next ∷ rest) (below front starts)
          (omega arith, w.1, w.2)) in
    (rw bound (ground arith), ground (arith, covered-append front (e ∷ next ∷ rest) i.start))
  where
    below :
        (xs : Mapping)
        → All (λ x. x.start < e.start) xs
        → All (λ x. x.start < i.start) (xs ++ e ∷ [])
    below [] h = (p, tt)
    below (x ∷ xs) h = (omega arith, below xs h.1)

-- The loop of `overlapsFull`: from the covered byte `at` on, the entries follow without a gap.
full_loop_sound :
    (i : Interval) (at : ℕ) (m : Mapping) (b : ℕ)
    → at ≤ unknown
    → suc at ≢ unknown
    → IsValidFrom (suc at) m
    → full_loop i at m ≡ true
    → at < b
    → b ≤ i.end
    → is_covered m b ≡ true
unfolding full_loop
full_loop_sound i at [] b w n v h p q = absurd (ground arith)
full_loop_sound i at (e ∷ m) b w n v h p q =
    ground (arith, full_loop_sound i e.end m b, add-one_lem at)

last_covers_full :
    (i : Interval) (before : Mapping) (b : ℕ)
    → All (λ e. e.start < i.start) before
    → overlaps_full_by i before [] ≡ true
    → i.start ≤ b
    → b ≤ i.end
    → is_covered before b ≡ true
unfolding overlaps_full_by
last_covers_full i [] b a h p q = cc
last_covers_full i (e ∷ []) b a h p q = ground arith
last_covers_full i (e ∷ x ∷ xs) b a h p q = ground (arith, last_covers_full i (x ∷ xs) b a.1)

adjoins_covers :
    (s : ℕ) (before : Mapping) (ge : Entry) (b : ℕ)
    → All (λ e. e.start < s) before
    → s < ge.start
    → ge.start < unknown
    → adjoins (last? before) ge ≡ true
    → s ≤ b
    → b < ge.start
    → is_covered before b ≡ true
unfolding adjoins
adjoins_covers s [] ge b a g u h p q = cc
adjoins_covers s (e ∷ []) ge b a g u h p q = ground (arith, sub-one_lem ge.start)
adjoins_covers s (e ∷ x ∷ xs) ge b a g u h p q = ground (arith, adjoins_covers s (x ∷ xs) ge b a.1)

covers_by :
    (i : Interval) (before ge : Mapping) (b : ℕ)
    → All (λ e. e.start < i.start) before
    → IsValidFrom i.start ge
    → overlaps_full_by i before ge ≡ true
    → i.start ≤ b
    → b ≤ i.end
    → (is_covered before b || is_covered ge b) ≡ true
covers_by i before [] b a w h p q = ground (arith, last_covers_full i before b a h p q)
covers_by i before (e ∷ m) b a w h p q =
    let next = full_loop_sound i e.end m b w.1.word w.1.not_last w.2 in
    let prev = λ (g : i.start < e.start). adjoins_covers i.start before e b a g w.1.known in
    unfold overlaps_full_by in ground (arith, next, prev)

-- Where `overlapsFull` answers yes on a valid map, the map covers every byte of the interval.
pub overlaps_full_sound :
    (i : Interval) (m : Mapping) (b : ℕ)
    → IsValid m
    → overlaps_full i m ≡ true
    → i.start ≤ b
    → b ≤ i.end
    → is_covered m b ≡ true
unfolding overlaps_full
overlaps_full_sound i m b v h p q =
    let (before, ge) = lower_bound i.start m in
    ap (λ x. is_covered x b) (sym (lower_bound-append i.start m))
    ∙ covered-append before ge b
    ∙ covers_by i before ge b (lower_bound_below i.start m) (lower_bound_above i.start 0 m v) h p q
