-- ===== src/IntervalMap/Add.antt =====
-- `add` and `update` of one value, byte for byte.
use cape_implementation.Prelude.{
  ℕ, suc, ◌≤◌, ◌<◌, ◌≡◌, refl, Bool, Bool-cases, true, inl, inr, sym, subst, ◌∙◌, [], ◌∷◌, ◌++◌,
  arith, if◌then◌else◌, All,
}
use cape_implementation.IntervalMap.{
  Interval, Entry, Mapping, lower_bound, emplace, starts_after, fill, singleton, add_from,
  add_aligned, add_one, split_ext_borders,
}
use cape_implementation.IntervalMap.Cut.{
  IsFit, IsValidFrom, IsValid, values_at, IsAligned, values_at-below, values_at-cut, cut,
  IsValidFrom-weaken, cut-IsValidFrom, cut-IsAligned, cut-IsAligned_other,
}
use cape_implementation.IntervalMap.Divide.{
  lower_bound-append, lower_bound_below, lower_bound_above,
}
use cape_implementation.IntervalMap.Split.{split_ext_borders-cut}
use cape_implementation.IntervalMap.Fill.{holds, written, within, fill-IsValidFrom, fill-Writes}

module _ (s : ℕ) where
  abbrev EndsBelow : Mapping → Type 0
  EndsBelow = All (λ e. e.end < s)

  ends_of_IsAligned :
      (front m : Mapping)
      → All (λ e. e.start < s) front
      → IsAligned s (front ++ m)
      → EndsBelow front × IsAligned s m
  ends_of_IsAligned [] m a h = (tt, h)
  ends_of_IsAligned (e ∷ front) m a h =
      let (b, c) = ends_of_IsAligned front m a.1 h.1 in ((ground arith, b), c)

  replace_rest :
      (lo : ℕ) (front m m' : Mapping)
      → lo ≤ s
      → EndsBelow front
      → IsValidFrom lo (front ++ m)
      → IsValidFrom s m'
      → IsValidFrom lo (front ++ m')
  replace_rest lo [] m m' h a v w = IsValidFrom-weaken s lo m' h w
  replace_rest lo (e ∷ front) m m' h a v w =
      (v.0, v.1, replace_rest (suc e.end) front m m' a.0 a.1 v.2 w)

  values_behind :
      (front m : Mapping) (b : ℕ)
      → s ≤ b
      → EndsBelow front
      → values_at (front ++ m) b ≡ values_at m b
  values_behind [] m b h a = refl
  values_behind (e ∷ front) m b h a = ground (arith, values_behind front m b h a.1)

  values_before :
      (front m : Mapping) (b : ℕ)
      → b < s
      → IsValidFrom s m
      → values_at (front ++ m) b ≡ values_at front b
  values_before [] m b h v = values_at-below s b m v h
  values_before (e ∷ front) m b h v = ground (arith, values_before front m b h v)

emplace_middle :
    (x : Entry) (front m : Mapping)
    → All (λ e. e.start < x.start) front
    → IsValidFrom (suc x.end) m
    → x.start ≤ x.end
    → emplace x (front ++ m) ≡ front ++ x ∷ m
unfolding emplace
emplace_middle x [] [] a v h = refl
emplace_middle x [] (e ∷ m) a v h = ground arith
emplace_middle x (e ∷ front) m a v h = ground (arith, emplace_middle x front m a.1 v h)

-- What a write of `val` into the interval makes of the map `m`.
pub record IsWritten (i : Interval) (val : ℕ) (update : Bool) (m m' : Mapping) : Type 0 where
  pub valid : IsValid m'
  pub bytes :
      (b x : ℕ)
      → holds m' b x
        ≡ (if within i.start i.end b then written update val x (holds m b x) else holds m b x)

module _ (i : Interval) (val : ℕ) (update : Bool) (fit : IsFit i.start i.end) where
  -- The rest of the map from the interval's start on is replaced by `m'`.
  replaced :
      (before m m' : Mapping)
      → EndsBelow i.start before
      → IsValid (before ++ m)
      → IsValidFrom i.start m
      → IsValidFrom i.start m'
      → ((b x : ℕ)
          → holds m' b x
            ≡ (if within i.start i.end b then written update val x (holds m b x) else holds m b x))
      → IsWritten i val update (before ++ m) (before ++ m')
  replaced before m m' a v w w' h = record {
    valid = replace_rest i.start 0 before m m' (omega arith) a v w';
    bytes = λ b x. ground (
      arith,
      h b x,
      values_behind i.start before m b,
      values_behind i.start before m' b,
      values_before i.start before m b,
      values_before i.start before m' b,
    );
  }

  single_writes :
      (m : Mapping) (b x : ℕ)
      → IsValidFrom (suc i.end) m
      → holds (singleton i val ∷ m) b x
        ≡ (if within i.start i.end b then written update val x (holds m b x) else holds m b x)
  single_writes m b x v = ground (arith, values_at-below (suc i.end) b m v)

  starts_after_from :
      (m : Mapping)
      → IsValidFrom i.start m
      → starts_after m i.end ≡ true
      → IsValidFrom (suc i.end) m
  starts_after_from [] v h = tt
  starts_after_from (e ∷ m) v h = (ground arith, v.1, v.2)

  add_by :
      (before from : Mapping) (c : Bool)
      → IsValid (before ++ from)
      → All (λ e. e.start < i.start) before
      → IsValidFrom i.start from
      → IsAligned i.start (before ++ from)
      → IsAligned (suc i.end) from
      → IsWritten i val update
          (before ++ from)
          (add_from i val update before from (before ++ from) c).0
  unfolding add_from
  add_by before from c v a w al ar = elim (Bool-cases (starts_after from i.end)) [
    | inl gap ↦
        let after = starts_after_from from w gap in
        rw (gap, emplace_middle (singleton i val) before from a after fit.ordered)
          (replaced before from (singleton i val ∷ from) ends v w (omega arith, fit, after)
            (λ b x. single_writes from b x after))
    | inr next ↦ rw next (
        replaced before from (fill i.end val update i.start from).0 ends v w
          (fill-IsValidFrom i.end val update i.start from fit w ar next)
          (fill-Writes i.end val update i.start from fit w ar next))
  ]
    where
      ends : EndsBelow i.start before
      ends = (ends_of_IsAligned i.start before from a al).0

  add_aligned_lem :
      (m : Mapping) (c : Bool)
      → IsValid m
      → IsAligned i.start m
      → IsAligned (suc i.end) m
      → IsWritten i val update m (add_aligned i val update m c).0
  unfolding add_aligned
  add_aligned_lem m c v al ar =
      let (before, from) = lower_bound i.start m in
      let whole : (lower_bound i.start m).0 ++ (lower_bound i.start m).1 ≡ m =
        lower_bound-append i.start m in
      subst (λ x. IsWritten i val update x (add_from i val update before from x c).0) whole
        (add_by before from c (subst IsValid (sym whole) v) (lower_bound_below i.start m)
          (lower_bound_above i.start 0 m v) (subst (IsAligned i.start) (sym whole) al)
          (aligned_rest before from (subst (IsAligned (suc i.end)) (sym whole) ar)))
    where
      aligned_rest : (xs ys : Mapping) → IsAligned (suc i.end) (xs ++ ys) → IsAligned (suc i.end) ys
      aligned_rest [] ys h = h
      aligned_rest (x ∷ xs) ys h = aligned_rest xs ys h.1

  split_lem :
      (m : Mapping)
      → IsValid m
      → let m' = (split_ext_borders i m).0 in
        IsValid m'
        × IsAligned i.start m'
        × IsAligned (suc i.end) m'
        × ((b : ℕ) → values_at m' b ≡ values_at m b)
  split_lem m v =
      let ends = cut-IsValidFrom (suc i.end) 0 m fit.not_last v in
      subst
        (λ m'.
          IsValid m'
          × IsAligned i.start m'
          × IsAligned (suc i.end) m'
          × ((b : ℕ) → values_at m' b ≡ values_at m b))
        (sym (split_ext_borders-cut i m fit v))
        (
          cut-IsValidFrom i.start 0 (cut (suc i.end) m) (omega arith) ends,
          cut-IsAligned i.start 0 (cut (suc i.end) m) ends,
          cut-IsAligned_other i.start (suc i.end) (cut (suc i.end) m)
              (cut-IsAligned (suc i.end) 0 m v),
          λ b. values_at-cut i.start b (cut (suc i.end) m) ∙ values_at-cut (suc i.end) b m,
        )

-- A write of one value into an interval that fits, on a valid map: the map stays valid, and at each
-- byte of the interval it then holds the value beside the old ones (`add`) or alone (`update`); at
-- each other byte it holds what it held before.
pub add_one-IsWritten :
    (i : Interval) (val : ℕ) (update : Bool) (m : Mapping)
    → IsFit i.start i.end
    → IsValid m
    → IsWritten i val update m (add_one i val update m).0
unfolding add_one
add_one-IsWritten i val update [] fit v = record {
  valid = (omega arith, fit, tt);
  bytes = λ b x. single_writes i val update fit [] b x tt;
}
add_one-IsWritten i val update (e ∷ m) fit v =
    let (m', c) = split_ext_borders i (e ∷ m) in
    let (v', al, ar, same) = split_lem i val update fit (e ∷ m) v in
    let w = add_aligned_lem i val update fit m' c v' al ar in
    record { valid = w.valid; bytes = λ b x. rw (← same b) (w.bytes b x) }
