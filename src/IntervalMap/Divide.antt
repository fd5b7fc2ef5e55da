-- ===== src/IntervalMap/Divide.antt =====
-- The division of one entry, and the parts of the map before and behind a border.
use cape_implementation.Prelude.{
  ℕ, suc, ◌≤◌, ◌<◌, ◌≡◌, refl, ap, Option, none, some, [], ◌∷◌, ◌++◌, arith, All, ◌∙◌,
}
use cape_implementation.Offset.{unknown}
use cape_implementation.Offset.Saturation.{add-one_lem}
use cape_implementation.IntervalMap.{
  Interval, Entry, Mapping, lower_bound, emplace, erase, split_interval, crossing, split_end,
}
use cape_implementation.IntervalMap.Cut.{IsFit, IsValidFrom, cut, cut_beyond}

abbrev pub StartBelow : ℕ → Entry → Type 0
StartBelow s e = e.start < s

-- The parts of a divided entry, written with plain numbers.
abbrev pub parts : Entry → ℕ → Mapping → Mapping
parts e w m = record e { end = w } ∷ record e { start = suc w } ∷ m

split_head :
    (e : Entry) (w : ℕ) (m : Mapping)
    → e.start ≤ w
    → w < e.end
    → e.end ≤ unknown
    → IsValidFrom (suc e.end) m
    → split_interval (e ∷ m) e w ≡ parts e w m
unfolding split_interval emplace erase
split_head e w [] p q r v = ground (arith, add-one_lem w)
split_head e w (x ∷ m) p q r v = ground (arith, add-one_lem w)

split_skip :
    (e x : Entry) (w : ℕ) (m : Mapping)
    → e.start < x.start
    → x.start ≤ w
    → w < unknown
    → split_interval (e ∷ m) x w ≡ e ∷ split_interval m x w
unfolding split_interval emplace erase
split_skip e x w m p q r = ground (arith, add-one_lem w)

split_front :
    (front : Mapping) (x : Entry) (w : ℕ) (m : Mapping)
    → All (StartBelow x.start) front
    → x.start ≤ w
    → w < unknown
    → split_interval (front ++ m) x w ≡ front ++ split_interval m x w
split_front [] x w m a p q = refl
split_front (e ∷ front) x w m a p q =
    split_skip e x w (front ++ m) a.0 p q ∙ ap (λ r. e ∷ r) (split_front front x w m a.1 p q)

-- The entry that `crossing` finds goes over the end of the interval.
crossing_bounds :
    (i : Interval) (lo : ℕ) (m : Mapping) (it : Entry)
    → IsValidFrom lo m
    → crossing i m ≡ some it
    → (lo ≤ it.start) × (it.start ≤ i.end) × (i.end < it.end) × (it.end ≤ unknown)
unfolding crossing
crossing_bounds i lo [] it v h = cc
crossing_bounds i lo (e ∷ m) it v h = ground (arith, crossing_bounds i (suc e.end) m it v.2)

cut-crossing :
    (i : Interval) (lo : ℕ) (m : Mapping) (it : Entry)
    → IsValidFrom lo m
    → crossing i m ≡ some it
    → split_interval m it i.end ≡ cut (suc i.end) m
unfolding crossing cut
cut-crossing i lo [] it v h = cc
cut-crossing i lo (e ∷ m) it v h = ground (
  arith,
  crossing_bounds i (suc e.end) m it v.2,
  cut-crossing i (suc e.end) m it v.2,
  split_skip e it i.end m,
  split_head e i.end m,
)

cut_no_crossing :
    (i : Interval) (lo : ℕ) (m : Mapping)
    → IsValidFrom lo m
    → crossing i m ≡ none
    → cut (suc i.end) m ≡ m
unfolding crossing cut
cut_no_crossing i lo [] v h = refl
cut_no_crossing i lo (e ∷ m) v h =
    ground (arith, cut_no_crossing i (suc e.end) m v.2, cut_beyond (suc i.end) (suc e.end) m)

-- `lower_bound` divides the map, and nothing else divides it so.
module _ (s : ℕ) where
  pub lower_bound-append : (m : Mapping) → (lower_bound s m).0 ++ (lower_bound s m).1 ≡ m
  unfolding lower_bound
  lower_bound-append [] = refl
  lower_bound-append (e ∷ m) = ground (arith, lower_bound-append m)

  pub lower_bound_below : (m : Mapping) → All (StartBelow s) (lower_bound s m).0
  unfolding lower_bound
  lower_bound_below [] = tt
  lower_bound_below (e ∷ m) = ground (arith, lower_bound_below m)

  pub lower_bound_above :
      (lo : ℕ) (m : Mapping) → IsValidFrom lo m → IsValidFrom s (lower_bound s m).1
  unfolding lower_bound
  lower_bound_above lo [] v = tt
  lower_bound_above lo (e ∷ m) v = ground (arith, lower_bound_above (suc e.end) m v.2)

  pub lower_bound_unique :
      (front m : Mapping)
      → All (StartBelow s) front
      → IsValidFrom s m
      → lower_bound s (front ++ m) ≡ (front, m)
  unfolding lower_bound
  lower_bound_unique [] [] a v = refl
  lower_bound_unique [] (e ∷ m) a v = ground arith
  lower_bound_unique (e ∷ front) m a v = ground (arith, lower_bound_unique front m)

-- The parts of a valid map around an entry.
pub around :
    (lo : ℕ) (front : Mapping) (e : Entry) (m : Mapping)
    → IsValidFrom lo (front ++ e ∷ m)
    → All (λ x. x.end < e.start) front
      × All (StartBelow e.start) front
      × IsFit e.start e.end
      × IsValidFrom (suc e.end) m
      × (lo ≤ e.start)
around lo [] e m v = (tt, tt, v.1, v.2, v.0)
around lo (x ∷ front) e m v =
    let (a, b, c, d, f) = around (suc x.end) front e m v.2 in
    ((omega arith, a), (omega arith, b), c, d, omega arith)

pub split_end_lem :
    (i : Interval) (lo : ℕ) (front ge : Mapping)
    → All (StartBelow i.start) front
    → i.end ≤ unknown
    → i.start ≤ lo
    → IsValidFrom lo ge
    → (split_end i ge (front ++ ge)).0 ≡ front ++ cut (suc i.end) ge
unfolding split_end
split_end_lem i lo front ge a w l v = go (crossing i ge) refl
  where
    go :
        (o : Option Entry)
        → crossing i ge ≡ o
        → (split_end i ge (front ++ ge)).0 ≡ front ++ cut (suc i.end) ge
    go none e = rw (e, split_end) (rw (cut_no_crossing i lo ge v e))
    go (some it) e =
        let (b, c, d, f) = crossing_bounds i lo ge it v e in
        rw (e, split_end)
          (split_front front it i.end ge (below front it a (omega arith)) c (omega arith)
            ∙ ap (λ r. front ++ r) (cut-crossing i lo ge it v e))
      where
        below :
            (xs : Mapping) (it : Entry)
            → All (StartBelow i.start) xs
            → i.start ≤ it.start
            → All (StartBelow it.start) xs
        below [] it h k = tt
        below (x ∷ xs) it h k = (omega arith, below xs it h.1 k)

-- An entry inside a map, divided in place.
pub split_at :
    (front : Mapping) (e : Entry) (w : ℕ) (m : Mapping)
    → All (StartBelow e.start) front
    → e.start ≤ w
    → w < e.end
    → e.end ≤ unknown
    → IsValidFrom (suc e.end) m
    → split_interval (front ++ e ∷ m) e w ≡ front ++ parts e w m
split_at front e w m a p q r v =
    split_front front e w (e ∷ m) a p (omega arith)
    ∙ ap (λ t. front ++ t) (split_head e w m p q r v)

-- The second entry behind `front`, divided in place.
pub split_second :
    (front : Mapping) (x e : Entry) (w : ℕ) (m : Mapping)
    → All (StartBelow e.start) front
    → x.start < e.start
    → e.start ≤ w
    → w < e.end
    → e.end ≤ unknown
    → IsValidFrom (suc e.end) m
    → split_interval (front ++ x ∷ e ∷ m) e w ≡ front ++ x ∷ parts e w m
split_second front x e w m a b p q r v =
    split_front front e w (x ∷ e ∷ m) a p (omega arith)
    ∙ ap (λ t. front ++ t)
        (split_skip x e w (e ∷ m) b p (omega arith) ∙ ap (λ t. x ∷ t) (split_head e w m p q r v))
