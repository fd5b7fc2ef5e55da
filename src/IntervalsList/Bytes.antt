-- ===== src/IntervalsList/Bytes.antt =====
-- The bytes in a list of intervals after `add` and `intersectWith`.
use cape_implementation.Prelude.{
  ℕ, suc, ◌≤◌, ◌≡◌, refl, ◌∙◌, Bool, Bool-cases, inl, inr, true, false, ◌&&◌, ◌||◌, not, none, some,
  List, [], ◌∷◌, ◌++◌, arith, ltb,
}
use cape_implementation.IntervalMap.{Interval}
use cape_implementation.IntervalMap.Fill.{within}
use cape_implementation.IntervalQuery.Uncovered.{inside}
use cape_implementation.IntervalsList.{
  ranges_overlap, replace_from, after_entry, add_along, add_interval, erase_before, trim,
  trim_first, intersect_rest, intersect_with,
}

-- Entries in order that share no byte, none of them before `lo`.
abbrev pub IsSortedFrom : ℕ → List Interval → Type 0
IsSortedFrom lo [] = Unit
IsSortedFrom lo (e ∷ rest) = (lo ≤ e.start) × (e.start ≤ e.end) × IsSortedFrom (suc e.end) rest

abbrev pub none_overlaps : Interval → List Interval → Bool
none_overlaps i [] = true
none_overlaps i (e ∷ rest) = not (ranges_overlap i e) && none_overlaps i rest

add_along_apart :
    (i : Interval) (lo : ℕ) (xs : List Interval)
    → i.start ≤ i.end
    → lo ≤ i.start
    → IsSortedFrom lo xs
    → none_overlaps i xs ≡ true
    → (ys : List Interval) × (add_along i xs ≡ some ys)
      × IsSortedFrom lo ys
      × ((b : ℕ) → inside ys b ≡ (within i.start i.end b || inside xs b))
unfolding add_along after_entry ranges_overlap
add_along_apart i lo [] f l s n = (i ∷ [], refl, (l, f, tt), λ b. refl)
add_along_apart i lo (e ∷ rest) f l s n = elim (Bool-cases (ltb i.end e.start)) [
  | inl before ↦ (
    i ∷ e ∷ rest,
    ground (arith, n, before),
    (l, f, (ground (arith, before), s.1, s.2)),
    λ b. refl,
  )
  | inr behind ↦
      let (ys, a, sorted, bytes) =
        add_along_apart i (suc e.end) rest f (ground (arith, n, behind, f, s.1)) s.2
          (ground (arith, n)) in
      let apart : ranges_overlap i e ≡ false = ground (arith, n) in
      (
        e ∷ ys,
        rw (add_along, apart, behind, a) refl,
        (s.0, s.1, sorted),
        λ b. ground (arith, bytes b),
      )
]

last_start :
    (lo : ℕ) (front : List Interval) (e : Interval)
    → IsSortedFrom lo (front ++ e ∷ [])
    → lo ≤ e.start
last_start lo [] e s = s.0
last_start lo (x ∷ front) e s = omega (arith, s.0, s.1, last_start (suc x.end) front e s.2)

add_along_last :
    (i : Interval) (lo : ℕ) (front : List Interval) (e : Interval)
    → IsSortedFrom lo (front ++ e ∷ [])
    → none_overlaps i front ≡ true
    → ranges_overlap i e ≡ true
    → add_along i (front ++ e ∷ []) ≡ none
unfolding add_along after_entry replace_from ranges_overlap
add_along_last i lo [] e s n o = rw (add_along, o) refl
add_along_last i lo (x ∷ front) e s n o =
    let apart : ranges_overlap i x ≡ false = ground (arith, n) in
    let not_behind : ltb i.end x.start ≡ false =
      ground (arith, o, s.1, last_start (suc x.end) front e s.2) in
    rw
      (add_along, apart, not_behind, add_along_last i (suc x.end) front e s.2 (ground (arith, n)) o)
      refl

-- Adding an interval that no entry overlaps to a list in order, the result is in order and has the bytes
-- of both.
pub add_interval_apart :
    (i x : Interval) (xs : List Interval)
    → i.start ≤ i.end
    → IsSortedFrom 0 (x ∷ xs)
    → none_overlaps i (x ∷ xs) ≡ true
    → (ys : List Interval) × (add_interval i (x ∷ xs) ≡ some ys)
      × IsSortedFrom 0 ys
      × ((b : ℕ) → inside ys b ≡ (within i.start i.end b || inside (x ∷ xs) b))
unfolding add_interval
add_interval_apart i x xs f s n = add_along_apart i 0 (x ∷ xs) f (omega arith) s n

add_interval-append :
    (i : Interval) (front : List Interval) (e : Interval)
    → add_interval i (front ++ e ∷ []) ≡ add_along i (front ++ e ∷ [])
unfolding add_interval
add_interval-append i [] e = refl
add_interval-append i (y ∷ front) e = refl

-- Adding an interval to a list in order of which the last entry alone overlaps it, the end of the list is
-- read, and so it is for each interval that is added to an empty list.
pub add_interval_reads_end :
    (i : Interval) (front : List Interval) (e : Interval)
    → i.start ≤ i.end
    → IsSortedFrom 0 (front ++ e ∷ [])
    → none_overlaps i front ≡ true
    → ranges_overlap i e ≡ true
    → (add_interval i (front ++ e ∷ []) ≡ none) × (add_interval i [] ≡ none)
unfolding add_interval ranges_overlap
add_interval_reads_end i front e f s n o = (
  add_interval-append i front e ∙ add_along_last i 0 front e s n o,
  add_along_last i 0 [] i (omega arith, f, tt) refl (ground (arith, f)),
)

inside-erase_before :
    (s b : ℕ) (xs : List Interval) → inside (erase_before s xs) b ≡ true → inside xs b ≡ true
unfolding erase_before
inside-erase_before s b [] h = h
inside-erase_before s b (e ∷ rest) h = ground (arith, h, inside-erase_before s b rest)

inside-trim_first :
    (r : Interval) (b : ℕ) (xs : List Interval)
    → inside (trim_first r xs) b ≡ true
    → inside xs b ≡ true
unfolding trim_first trim ranges_overlap
inside-trim_first r b [] h = h
inside-trim_first r b (e ∷ rest) h = ground (arith, h)

inside-intersect_rest :
    (rs xs : List Interval) (b : ℕ) → inside (intersect_rest rs xs) b ≡ true → inside xs b ≡ true
unfolding intersect_rest
inside-intersect_rest [] xs b h = h
inside-intersect_rest (r ∷ rs) [] b h = h
inside-intersect_rest (r ∷ rs) (x ∷ xs) b h =
    inside-erase_before r.start b (x ∷ xs)
      (inside-trim_first r b (erase_before r.start (x ∷ xs)) (inside-intersect_rest rs _ b h))

-- intersectWith adds no byte to a list, and where the other list is empty it removes none.
pub inside-intersect_with :
    (xs rs : List Interval) (b : ℕ)
    → ((inside (intersect_with xs rs) b ≡ true) → inside xs b ≡ true) × (intersect_with xs [] ≡ xs)
unfolding intersect_with intersect_rest
inside-intersect_with [] rs b = (λ h. h, refl)
inside-intersect_with (x ∷ xs) rs b = (inside-intersect_rest rs (x ∷ xs) b, refl)
