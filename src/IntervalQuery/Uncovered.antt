-- ===== src/IntervalQuery/Uncovered.antt =====
-- `uncovered` against the bytes of the map.
use cape_implementation.Prelude.{
  ℕ, suc, ◌-◌, ◌≤◌, ◌<◌, ◌≡◌, inl, inr, refl, sym, subst, ◌∙◌, Bool, Bool-cases, true, false, ◌||◌,
  List, [], ◌∷◌, ◌++◌, arith, ltb, if◌then◌else◌, All,
}
use cape_implementation.Offset.{unknown}
use cape_implementation.Offset.Saturation.{add-one_lem, sub-one_lem}
use cape_implementation.IntervalMap.{Interval, Entry, Mapping, starts_after, lower_bound}
use cape_implementation.IntervalMap.Cut.{IsFit, IsValidFrom, IsValid}
use cape_implementation.IntervalMap.Fill.{within}
use cape_implementation.IntervalQuery.{uncovered_loop, uncovered_from, uncovered, le, shift_le}
use cape_implementation.IntervalQuery.Find.{le_finds}
use cape_implementation.IntervalQuery.Overlap.{is_covered, covered-append}

-- Some interval of the list holds the byte.
abbrev pub inside : List Interval → ℕ → Bool
inside [] b = false
inside (i ∷ is) b = within i.start i.end b || inside is b

covered_below : (lo b : ℕ) (m : Mapping) → IsValidFrom lo m → b < lo → is_covered m b ≡ false
covered_below lo b [] v h = refl
covered_below lo b (e ∷ m) v h = ground (arith, covered_below (suc e.end) b m)

-- The bytes from `at` on: those inside the returned intervals are uncovered, and up to the end of
-- the interval each uncovered byte is inside one.
module _ (i : Interval) (b : ℕ) where
  loop_lem :
      (at : ℕ) (m : Mapping)
      → at ≤ i.end
      → i.end ≤ unknown
      → IsValidFrom at m
      → ((inside (uncovered_loop i at m) b ≡ true) → (at ≤ b) × (is_covered m b ≡ false))
        × (at ≤ b → b ≤ i.end → is_covered m b ≡ false → inside (uncovered_loop i at m) b ≡ true)
  unfolding uncovered_loop
  loop_lem at [] p w v = ground arith
  loop_lem at (e ∷ m) p w v = ground (
    arith,
    loop_lem (suc e.end) m,
    add-one_lem e.end,
    sub-one_lem e.start,
    covered_below (suc e.end) b m,
  )

  front_uncovered :
      (front : Mapping)
      → All (λ e. e.end < i.start) front
      → i.start ≤ b
      → is_covered front b ≡ false
  front_uncovered [] a h = refl
  front_uncovered (e ∷ front) a h = ground (arith, front_uncovered front a.1)

  -- What `uncovered` promises of the byte `b`, for the returned list `r`.
  abbrev Answers : Mapping → List Interval → Type 0
  Answers m r =
      ((inside r b ≡ true) → (i.start ≤ b) × (is_covered m b ≡ false))
      × (i.start ≤ b → b ≤ i.end → is_covered m b ≡ false → inside r b ≡ true)

  from_lem :
      (m : Mapping)
      → IsFit i.start i.end
      → IsValidFrom 0 m
      → All (λ e. i.start ≤ e.end) m
      → Answers m (uncovered_from i (if starts_after m i.end then [] else m))
  unfolding uncovered_from
  from_lem [] f v a = ground arith
  from_lem (e ∷ m) f v a = elim (Bool-cases (ltb i.end e.start)) [
    | inl gap ↦
        rw gap (ground (arith, covered_below (suc i.end) b m, covered_below (suc e.end) b m))
    | inr next ↦ rw next (
        ground (
          arith,
          loop_lem (suc e.end) m,
          loop_lem i.start (e ∷ m),
          add-one_lem e.end,
          covered_below (suc e.end) b m,
        ))
  ]

  front-Answers :
      (front m : Mapping) (r : List Interval)
      → All (λ e. e.end < i.start) front
      → Answers m r
      → Answers (front ++ m) r
  front-Answers front m r a h = (
    λ k.
        let (p, q) = h.0 k in
        (p, covered-append front m b ∙ ground (arith, front_uncovered front a)),
    λ p q k. h.1 p q (ground (arith, covered-append front m b)),
  )

-- On a valid map: a byte inside a returned interval lies at or behind the start of `I` and is not
-- covered by the map, and every byte of `I` that is not covered is inside a returned interval.
pub uncovered_correct :
    (i : Interval) (m : Mapping) (b : ℕ)
    → IsFit i.start i.end
    → IsValid m
    → ((inside (uncovered i m) b ≡ true) → (i.start ≤ b) × (is_covered m b ≡ false))
      × (i.start ≤ b → b ≤ i.end → is_covered m b ≡ false → inside (uncovered i m) b ≡ true)
unfolding uncovered le shift_le lower_bound
uncovered_correct i [] b f v = ground arith
uncovered_correct i (e ∷ m) b f v =
    let (from, found, h) = le_finds i (e ∷ m) f.ordered (λ q. ground (arith, q)) v in
    let answers = from_lem i b h.rest f h.valid h.behind in
    rw (found, uncovered)
      (subst (λ x. Answers i b x (uncovered_from i from)) (sym h.whole)
        (front-Answers i b h.front h.rest (uncovered_from i from) h.before
          (subst (λ x. Answers i b h.rest (uncovered_from i x)) (sym h.result) answers)))

-- The last gap is not cut off at the end of `I`: where the interval begins in an entry and ends in
-- the gap behind it, the whole gap is returned, whatever lies between the end of `I` and the next
-- entry.
pub uncovered_overruns :
    (i : Interval) (e next : Entry) (rest : Mapping)
    → IsValid (e ∷ next ∷ rest)
    → e.start < i.start
    → i.start ≤ e.end
    → e.end < i.end
    → i.end < next.start
    → uncovered i (e ∷ next ∷ rest) ≡ record { start = suc e.end; end = next.start - 1 } ∷ []
unfolding uncovered le shift_le lower_bound uncovered_from uncovered_loop
uncovered_overruns i e next rest v p q r s =
    ground (arith, add-one_lem e.end, sub-one_lem next.start)
