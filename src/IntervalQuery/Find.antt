-- ===== src/IntervalQuery/Find.antt =====
-- `le` finds the place in the map behind which every entry ends at or behind the interval's start.
use mathlib.Core.List.{append_assoc}
use cape_implementation.Prelude.{
  ℕ, suc, ◌≤◌, ◌<◌, ◌≡◌, ◌≢◌, refl, sym, subst, ◌∙◌, true, false, inl, inr, none, some, [], ◌∷◌,
  ◌++◌, arith, ltb, leb, if◌then◌else◌, All, Bool-cases, leb→le, last?, last?-snoc, snoc-cases,
}
use cape_implementation.IntervalMap.{Interval, Entry, Mapping, lower_bound, starts_after}
use cape_implementation.IntervalMap.Cut.{IsValidFrom, IsValid}
use cape_implementation.IntervalMap.Divide.{
  lower_bound-append, lower_bound_below, lower_bound_above, around,
}
use cape_implementation.IntervalQuery.{shift_le, le}

-- The entries of `front` end before the interval, those of `rest` at its start or behind it, and
-- `from` is what `le` returns.
pub record Found (i : Interval) (m from : Mapping) : Type 0 where
  pub front : Mapping
  pub rest : Mapping
  pub whole : m ≡ front ++ rest
  pub before : All (λ e. e.end < i.start) front
  pub behind : All (λ e. i.start ≤ e.end) rest
  pub valid : IsValidFrom 0 rest
  pub result : from ≡ (if starts_after rest i.end then [] else rest)

behind_valid : (s lo : ℕ) (m : Mapping) → s ≤ lo → IsValidFrom lo m → All (λ e. s ≤ e.end) m
behind_valid s lo [] h v = tt
behind_valid s lo (e ∷ m) h v = (omega arith, behind_valid s (suc e.end) m (omega arith) v.2)

IsValidFrom-zero : (lo : ℕ) (m : Mapping) → IsValidFrom lo m → IsValidFrom 0 m
IsValidFrom-zero lo [] v = tt
IsValidFrom-zero lo (e ∷ m) v = (omega arith, v.1, v.2)

pub after_valid :
    (stop : ℕ) (m : Mapping)
    → IsValidFrom 0 m
    → starts_after m stop ≡ true
    → IsValidFrom (suc stop) m
after_valid stop [] v h = tt
after_valid stop (e ∷ m) v h = (ground arith, v.1, v.2)

module _ (i : Interval) (fit : i.start ≤ i.end) where
  -- No entry starts before the interval.
  Found-first :
      (ge : Mapping)
      → ge ≢ []
      → IsValidFrom i.start ge
      → (from : Mapping) × (shift_le i none ge ≡ some from) × Found i ge from
  unfolding shift_le
  Found-first [] n v = absurd (n refl)
  Found-first (e ∷ m) n v = (
    if ltb i.end e.start then [] else e ∷ m,
    refl,
    record {
      front = [];
      rest = e ∷ m;
      whole = refl;
      before = tt;
      behind = behind_valid i.start i.start (e ∷ m) (omega arith) v;
      valid = IsValidFrom-zero i.start (e ∷ m) v;
      result = refl;
    },
  )

  -- `prev` is the last entry that starts before the interval; it may reach into it.
  Found-prev :
      (front : Mapping) (prev : Entry) (ge : Mapping)
      → IsValid (front ++ prev ∷ ge)
      → prev.start < i.start
      → IsValidFrom i.start ge
      → (from : Mapping) × (shift_le i (some prev) ge ≡ some from)
        × Found i (front ++ prev ∷ ge) from
  unfolding shift_le
  Found-prev front prev ge v p w = elim (Bool-cases (leb i.start prev.end)) [
    | inl reaches ↦ (
      prev ∷ ge,
      reaching ge reaches,
      record {
        front = front;
        rest = prev ∷ ge;
        whole = refl;
        before = ends front (around 0 front prev ge v).0;
        behind = (leb→le i.start prev.end reaches, behind_valid i.start i.start ge (omega arith) w);
        valid = (omega arith, (around 0 front prev ge v).2, (around 0 front prev ge v).3);
        result = ground arith;
      },
    )
    | inr apart ↦ (
      if starts_after ge i.end then [] else ge,
      beside ge apart,
      record {
        front = front ++ prev ∷ [];
        rest = ge;
        whole = sym (append_assoc front (prev ∷ []) ge);
        before = last_end front (ends front (around 0 front prev ge v).0) (ground arith);
        behind = behind_valid i.start i.start ge (omega arith) w;
        valid = IsValidFrom-zero i.start ge w;
        result = refl;
      },
    )
  ]
    where
      reaching :
          (ge : Mapping)
          → leb i.start prev.end ≡ true
          → shift_le i (some prev) ge ≡ some (prev ∷ ge)
      reaching [] h = rw h
      reaching (e ∷ m) h = rw h

      beside :
          (ge : Mapping)
          → leb i.start prev.end ≡ false
          → shift_le i (some prev) ge ≡ some (if starts_after ge i.end then [] else ge)
      beside [] h = rw h
      beside (e ∷ m) h = rw h

      ends : (xs : Mapping) → All (λ e. e.end < prev.start) xs → All (λ e. e.end < i.start) xs
      ends [] h = tt
      ends (x ∷ xs) h = (omega arith, ends xs h.1)

      last_end :
          (xs : Mapping)
          → All (λ e. e.end < i.start) xs
          → prev.end < i.start
          → All (λ e. e.end < i.start) (xs ++ prev ∷ [])
      last_end [] h k = (k, tt)
      last_end (x ∷ xs) h k = (h.0, last_end xs h.1 k)

  abbrev Finds : Mapping → Mapping → Type 0
  Finds before ge =
      before ++ ge ≢ []
      → IsValid (before ++ ge)
      → All (λ e. e.start < i.start) before
      → IsValidFrom i.start ge
      → (from : Mapping) × (shift_le i (last? before) ge ≡ some from) × Found i (before ++ ge) from

  Finds-snoc : (front : Mapping) (prev : Entry) (ge : Mapping) → Finds (front ++ prev ∷ []) ge
  Finds-snoc front prev ge n v a w =
      let flat = append_assoc front (prev ∷ []) ge in
      rw (last?-snoc front prev, flat)
        (Found-prev front prev ge (subst IsValid flat v) (last_start front a) w)
    where
      last_start :
          (xs : Mapping) → All (λ e. e.start < i.start) (xs ++ prev ∷ []) → prev.start < i.start
      last_start [] h = h.0
      last_start (x ∷ xs) h = last_start xs h.1

  Finds-by : (before ge : Mapping) → Finds before ge
  Finds-by before ge = elim (snoc-cases before) [
    | inl e ↦ subst (λ x. Finds x ge) (sym e) (λ n v a w. Found-first ge n w)
    | inr (front, prev, e) ↦ subst (λ x. Finds x ge) (sym e) (Finds-snoc front prev ge)
  ]

-- On a valid map that is not empty `le` finds its place.
pub le_finds :
    (i : Interval) (m : Mapping)
    → i.start ≤ i.end
    → m ≢ []
    → IsValid m
    → (from : Mapping) × (le i m ≡ some from) × Found i m from
unfolding le
le_finds i m fit n v =
    let (before, ge) = lower_bound i.start m in
    let whole : (lower_bound i.start m).0 ++ (lower_bound i.start m).1 ≡ m =
      lower_bound-append i.start m in
    subst (λ x. (from : Mapping) × (shift_le i (last? before) ge ≡ some from) × Found i x from)
      whole
      (Finds-by i fit before ge (λ e. n (sym whole ∙ e)) (subst IsValid (sym whole) v)
        (lower_bound_below i.start m) (lower_bound_above i.start 0 m v))
