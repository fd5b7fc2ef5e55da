-- ===== src/IntervalMap/Split.antt =====
-- What `splitExtBorders` does, whichever branch it takes: it cuts the map at both borders.
use cape_implementation.Prelude.{
  ℕ, suc, ◌-◌, ◌≤◌, ◌<◌, ◌≡◌, refl, ap, Bool, [], ◌∷◌, ◌++◌, arith, All, sym, subst, inl, inr, ◌∙◌,
  last?-snoc, snoc-cases,
}
use mathlib.Core.List.{append_assoc}
use cape_implementation.Offset.Saturation.{add-one_lem, sub-one_lem}
use cape_implementation.IntervalMap.{
  Interval, Entry, Mapping, lower_bound, split_last, split_prev, split_end, split_found,
  split_before, split_only, split_by, split_ext_borders,
}
use cape_implementation.IntervalMap.Cut.{
  IsFit, IsValidFrom, IsValid, cut, cut_beyond, cut-append, cut-IsValidFrom, cut_skip,
}
use cape_implementation.IntervalMap.Divide.{
  StartBelow, parts, lower_bound-append, lower_bound_below, lower_bound_above, lower_bound_unique,
  around, split_end_lem, split_at, split_second,
}

below_weaken :
    (s t : ℕ) (front : Mapping) → s ≤ t → All (StartBelow s) front → All (StartBelow t) front
below_weaken s t [] h a = tt
below_weaken s t (x ∷ front) h a = (omega arith, below_weaken s t front h a.1)

module _ (i : Interval) (fit : IsFit i.start i.end) (front : Mapping) (prev : Entry) (ge : Mapping)
    (a : All (StartBelow prev.start) front) (before : prev.start < i.start)
    (p : IsFit prev.start prev.end) (v : IsValidFrom (suc prev.end) ge) where
  -- The cuts at both borders of the entry before the interval.
  cut_prev_one :
      i.start ≤ prev.end
      → prev.end ≤ i.end
      → cut i.start (cut (suc i.end) (prev ∷ ge)) ≡ parts prev (i.start - 1) (cut (suc i.end) ge)
  unfolding cut
  cut_prev_one h k = ground arith

  cut_prev_two :
      i.end < prev.end
      → cut i.start (cut (suc i.end) (prev ∷ ge))
        ≡ record prev { end = i.start - 1 } ∷ parts (record prev { start = i.start }) i.end ge
  unfolding cut
  cut_prev_two h = ground arith

  cut_prev_none :
      IsValidFrom i.start ge
      → prev.end < i.start
      → cut i.start (cut (suc i.end) (prev ∷ ge)) ≡ prev ∷ cut (suc i.end) ge
  cut_prev_none w h =
      ap (cut i.start) (cut_skip (suc i.end) prev ge (ground arith))
      ∙ cut_skip i.start prev (cut (suc i.end) ge) (ground arith)
      ∙ ap (λ t. prev ∷ t)
          (cut_beyond i.start i.start (cut (suc i.end) ge) (omega arith)
            (cut-IsValidFrom (suc i.end) i.start ge fit.not_last w))

  split_prev_lem :
      (c : Bool)
      → IsValidFrom i.start ge
      → (split_prev i prev (front ++ prev ∷ cut (suc i.end) ge) c).0
        ≡ front ++ cut i.start (cut (suc i.end) (prev ∷ ge))
  unfolding split_prev
  split_prev_lem c w = ground (
    arith,
    cut_prev_one,
    cut_prev_two,
    cut_prev_none w,
    cut-IsValidFrom (suc i.end) (suc prev.end) ge fit.not_last,
    cut_beyond (suc i.end) (suc prev.end) ge,
    sub-one_lem i.start,
    add-one_lem (i.start - 1),
    split_at front prev (i.start - 1) (cut (suc i.end) ge) a,
    split_second front (record prev { end = i.start - 1 }) (record prev { start = i.start }) i.end
        ge (below_weaken prev.start i.start front (omega arith) a),
  )

  split_last_lem :
      ge ≡ []
      → (split_last i prev (front ++ prev ∷ [])).0
        ≡ front ++ cut i.start (cut (suc i.end) (prev ∷ []))
  unfolding split_last cut
  split_last_lem none_left = ground (
    arith,
    sub-one_lem i.start,
    add-one_lem (i.start - 1),
    split_at front prev (i.start - 1) [] a,
    split_at front prev i.end [] a,
    split_at front (record prev { end = i.end }) (i.start - 1)
        (record prev { start = suc i.end } ∷ []) a,
  )

before_weaken :
    (s t : ℕ) (front : Mapping) → s ≤ t → All (λ e. e.end < s) front → All (λ e. e.end < t) front
before_weaken s t [] h a = tt
before_weaken s t (x ∷ front) h a = (omega arith, before_weaken s t front h a.1)

last_below : (s : ℕ) (xs : Mapping) (e : Entry) → All (StartBelow s) (xs ++ e ∷ []) → e.start < s
last_below s [] e h = h.0
last_below s (x ∷ xs) e h = last_below s xs e h.1

cuts-append :
    (i : Interval) (fit : IsFit i.start i.end) (front m : Mapping)
    → All (λ e. e.end < i.start) front
    → cut i.start (cut (suc i.end) (front ++ m)) ≡ front ++ cut i.start (cut (suc i.end) m)
cuts-append i fit front m a =
    ap (cut i.start)
      (cut-append (suc i.end) front m (before_weaken i.start (suc i.end) front (omega arith) a))
    ∙ cut-append i.start front (cut (suc i.end) m) a

module _ (i : Interval) (fit : IsFit i.start i.end) (ge : Mapping)
    (w : IsValidFrom i.start ge) where
  ge_cut : IsValidFrom i.start (cut (suc i.end) ge)
  ge_cut = cut-IsValidFrom (suc i.end) i.start ge fit.not_last w

  -- Behind `split_end` the entries before the interval are those of before.
  end_found :
      (before : Mapping)
      → All (StartBelow i.start) before
      → ((split_end i ge (before ++ ge)).0 ≡ before ++ cut (suc i.end) ge)
        × (lower_bound i.start (before ++ cut (suc i.end) ge) ≡ (before, cut (suc i.end) ge))
  end_found before a = (
    split_end_lem i i.start before ge a fit.word (omega arith) w,
    lower_bound_unique i.start before (cut (suc i.end) ge) a ge_cut,
  )

  split_found_first : (split_found i ge ge).0 ≡ cut i.start (cut (suc i.end) ge)
  unfolding split_found split_before
  split_found_first =
      let ends : (split_end i ge ge).0 ≡ cut (suc i.end) ge = (end_found [] tt).0 in
      let found : lower_bound i.start (cut (suc i.end) ge) ≡ ([], cut (suc i.end) ge) =
        (end_found [] tt).1 in
      rw (ends, found) (sym (cut_beyond i.start i.start (cut (suc i.end) ge) (omega arith) ge_cut))

  split_found_snoc :
      (lo : ℕ) (front : Mapping) (prev : Entry)
      → IsValidFrom lo (front ++ prev ∷ ge)
      → All (StartBelow i.start) (front ++ prev ∷ [])
      → (split_found i ge ((front ++ prev ∷ []) ++ ge)).0
        ≡ cut i.start (cut (suc i.end) (front ++ prev ∷ ge))
  unfolding split_found split_before
  split_found_snoc lo front prev v a =
      let (ends, found) = end_found (front ++ prev ∷ []) a in
      let (below, starts, p, rest, _) = around lo front prev ge v in
      let before : prev.start < i.start = last_below i.start front prev a in
      rw (ends, found, last?-snoc front prev, append_assoc front (prev ∷ []) (cut (suc i.end) ge))
        (split_prev_lem i fit front prev ge starts before p rest _ w
          ∙ sym (
              cuts-append i fit front (prev ∷ ge)
                (before_weaken prev.start i.start front (omega arith) below)))

module _ (i : Interval) (fit : IsFit i.start i.end) where
  -- What a division of a map by `lower_bound` is.
  abbrev IsBound : Mapping → Mapping → Type 0
  IsBound before ge =
      IsValid (before ++ ge) × All (StartBelow i.start) before × IsValidFrom i.start ge

  abbrev Splits : Mapping → Mapping → Type 0
  Splits before ge =
      (split_by i before ge (before ++ ge)).0 ≡ cut i.start (cut (suc i.end) (before ++ ge))

  Splits-first : (ge : Mapping) → IsBound [] ge → Splits [] ge
  unfolding split_by split_only cut
  Splits-first [] b = refl
  Splits-first (it ∷ rest) b = split_found_first i fit (it ∷ rest) b.2

  Splits-snoc :
      (front : Mapping) (prev : Entry) (ge : Mapping)
      → IsBound (front ++ prev ∷ []) ge
      → Splits (front ++ prev ∷ []) ge
  unfolding split_by split_only
  Splits-snoc front prev [] (v, a, w) =
      let flat = append_assoc front (prev ∷ []) [] in
      let (below, starts, p, rest, _) = around 0 front prev [] (subst IsValid flat v) in
      rw (last?-snoc front prev, flat)
        (split_last_lem i fit front prev [] starts (last_below i.start front prev a) p tt refl
          ∙ sym (
              cuts-append i fit front (prev ∷ []) (
                before_weaken prev.start i.start front
                  (omega (arith, last_below i.start front prev a)) below)))
  Splits-snoc front prev (it ∷ rest) (v, a, w) =
      let flat = append_assoc front (prev ∷ []) (it ∷ rest) in
      split_found_snoc i fit (it ∷ rest) w 0 front prev (subst IsValid flat v) a
      ∙ ap (λ x. cut i.start (cut (suc i.end) x)) (sym flat)

  split_by_lem : (before ge : Mapping) → IsBound before ge → Splits before ge
  split_by_lem before ge b = elim (snoc-cases before) [
    | inl e ↦ subst (λ x. IsBound x ge → Splits x ge) (sym e) (Splits-first ge) b
    | inr (front, prev, e) ↦
        subst (λ x. IsBound x ge → Splits x ge) (sym e) (Splits-snoc front prev ge) b
  ]

-- For a valid map and an interval that fits, `splitExtBorders` is the cut at both borders.
pub split_ext_borders-cut :
    (i : Interval) (m : Mapping)
    → IsFit i.start i.end
    → IsValid m
    → (split_ext_borders i m).0 ≡ cut i.start (cut (suc i.end) m)
unfolding split_ext_borders
split_ext_borders-cut i m fit v =
    let (before, ge) = lower_bound i.start m in
    let whole : (lower_bound i.start m).0 ++ (lower_bound i.start m).1 ≡ m =
      lower_bound-append i.start m in
    subst (λ x. (split_by i before ge x).0 ≡ cut i.start (cut (suc i.end) x)) whole
      (split_by_lem i fit before ge
        (subst IsValid (sym whole) v, lower_bound_below i.start m, lower_bound_above i.start 0 m v))
