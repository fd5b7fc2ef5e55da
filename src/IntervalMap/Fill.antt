-- ===== src/IntervalMap/Fill.antt =====
-- The loop of `_add`: what the map holds behind it, byte for byte.
use cape_implementation.Prelude.{
  ℕ, suc, ◌≤◌, ◌≡◌, ◌≢◌, Bool, Bool-cases, true, false, ◌&&◌, ◌||◌, inl, inr, sym, subst, List, [],
  ◌∷◌, arith, leb, ◌==◌, if◌then◌else◌, elem, elem-insert, length,
}
use cape_implementation.Offset.{unknown, add}
use cape_implementation.Offset.Saturation.{add-one_lem, sub-one_lem}
use cape_implementation.IntervalMap.{Entry, Mapping, add_value, starts_after, next_round, fill}
use cape_implementation.IntervalMap.Cut.{IsFit, IsValidFrom, values_at, IsAligned, values_at-below}

-- Whether the map holds `x` at the byte `b`.
abbrev pub holds : Mapping → ℕ → ℕ → Bool
holds m b x = elem x (values_at m b)

-- What a write of `val` leaves of the old answer `old`.
abbrev pub written : Bool → ℕ → ℕ → Bool → Bool
written update val x old = if update then val == x else (val == x || old)

elem_single : (v x : ℕ) (vs : List ℕ) → length vs ≡ 1 → elem v vs ≡ true → elem x vs ≡ (v == x)
elem_single v x [] p q = cc
elem_single v x (y ∷ []) p q = ground arith
elem_single v x (y ∷ z ∷ vs) p q = absurd (omega arith)

-- `_addValue` leaves the bounds, and writes the value.
add_value_lem :
    (v : ℕ) (u : Bool) (e : Entry) (x : ℕ)
    → ((add_value v u e).0.start ≡ e.start)
      × ((add_value v u e).0.end ≡ e.end)
      × (elem x (add_value v u e).0.values ≡ written u v x (elem x e.values))
unfolding add_value
add_value_lem v u e x = ground (arith, elem_single v x e.values, elem-insert v x e.values)

abbrev pub within : ℕ → ℕ → ℕ → Bool
within at stop b = leb at b && leb b stop

module _ (stop val : ℕ) (update : Bool) where
  -- What the loop is to leave at the byte `b` when it starts at `at` over `m`.
  abbrev Writes : ℕ → Mapping → Mapping → Type 0
  Writes at m m' =
      (b x : ℕ)
      → holds m' b x
        ≡ (if within at stop b then written update val x (holds m b x) else holds m b x)

  starts_after_valid :
      (e : ℕ) (its : Mapping)
      → IsValidFrom (suc e) its
      → starts_after its stop ≡ true
      → IsValidFrom (suc stop) its
  starts_after_valid e [] v h = tt
  starts_after_valid e (it ∷ its) v h = (ground arith, v.1, v.2)

  -- One round from the entry that ends at `e` on, over the valid entries `its`.
  module _ (e : ℕ) (its : Mapping) (more : Mapping × Bool) (f : e ≤ stop) (w : stop ≤ unknown)
      (n : suc stop ≢ unknown) (g : suc e ≢ unknown) (v : IsValidFrom (suc e) its) where
    next_round-IsValidFrom :
        (e ≢ stop → starts_after its stop ≡ false → IsValidFrom (suc e) more.0)
        → IsValidFrom (suc e) (next_round stop val e its more).0
    unfolding next_round
    next_round-IsValidFrom h = elim (Bool-cases (starts_after its stop)) [
      | inl gap ↦ rw gap (ground (arith, add-one_lem e, starts_after_valid e its v gap))
      | inr next ↦ rw next (ground (arith, λ (n : e ≢ stop). h n next))
    ]

    next_round-Writes :
        (e ≢ stop → starts_after its stop ≡ false → Writes (suc e) its more.0)
        → Writes (suc e) its (next_round stop val e its more).0
    unfolding next_round
    next_round-Writes h b x = elim (Bool-cases (starts_after its stop)) [
      | inl gap ↦ rw gap (
          ground (
            arith,
            add-one_lem e,
            values_at-below (suc stop) b its (starts_after_valid e its v gap),
          ))
      | inr next ↦ rw next (ground (arith, λ (n : e ≢ stop). h n next b x))
    ]

  -- The bounds that a round hands to the next one.
  end_bounds :
      (at : ℕ) (it : Entry) (its : Mapping)
      → IsFit at stop
      → IsValidFrom at (it ∷ its)
      → IsAligned (suc stop) (it ∷ its)
      → starts_after (it ∷ its) stop ≡ false
      → (it.start ≤ stop)
        × (it.end ≤ stop)
        × (it.end ≢ stop → IsFit (suc it.end) stop × (add it.end 1 ≡ suc it.end))
  end_bounds at it its f v a s = ground (arith, add-one_lem it.end)

  pub fill-IsValidFrom :
      (at : ℕ) (m : Mapping)
      → IsFit at stop
      → IsValidFrom at m
      → IsAligned (suc stop) m
      → starts_after m stop ≡ false
      → IsValidFrom at (fill stop val update at m).0
  unfolding fill
  fill-IsValidFrom at [] f v a s = tt
  fill-IsValidFrom at (it ∷ its) f v a s =
      let (first, le, next) = end_bounds at it its f v a s in
      let rest =
        next_round-IsValidFrom it.end its (fill stop val update (add it.end 1) its) le f.word
          f.not_last v.1.not_last v.2
          (λ n s'.
            subst (λ k. IsValidFrom (suc it.end) (fill stop val update k its).0) (sym (next n).1)
              (fill-IsValidFrom (suc it.end) its (next n).0 v.2 a.1 s')) in
      ground (arith, add_value_lem val update it 0, sub-one_lem it.start, rest)

  pub fill-Writes :
      (at : ℕ) (m : Mapping)
      → IsFit at stop
      → IsValidFrom at m
      → IsAligned (suc stop) m
      → starts_after m stop ≡ false
      → Writes at m (fill stop val update at m).0
  unfolding fill
  fill-Writes at [] f v a s b x = cc
  fill-Writes at (it ∷ its) f v a s b x =
      let (first, le, next) = end_bounds at it its f v a s in
      let rest =
        next_round-Writes it.end its (fill stop val update (add it.end 1) its) le f.word f.not_last
          v.1.not_last v.2
          (λ n s'.
            subst (λ k. Writes (suc it.end) its (fill stop val update k its).0) (sym (next n).1)
              (fill-Writes (suc it.end) its (next n).0 v.2 a.1 s'))
          b x in
      ground (
        arith,
        add_value_lem val update it x,
        sub-one_lem it.start,
        rest,
        values_at-below (suc it.end) b its v.2,
      )
