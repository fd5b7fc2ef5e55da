-- ===== src/Worklist/Ends.antt =====
-- A search over finitely many blocks ends: each is pushed at most once.
use cape_implementation.Prelude.{
  ℕ, zero, suc, ◌+◌, ◌≤◌, ◌<◌, ◌≡◌, inl, inr, refl, ap, true, false, some, List, [], ◌∷◌, arith,
  ==_iff, if◌then◌else◌, elem, length, List-cases,
}
use cape_implementation.Worklist.{Search, offer, offer_all, expand, explore}
use cape_implementation.Worklist.Reach.{IsPush}

-- The number of blocks below `n` that are not in the set.
abbrev pub outside : ℕ → List ℕ → ℕ
outside zero s = 0
outside (suc n) s = (if elem n s then 0 else 1) + outside n s

outside_same : (n x : ℕ) (s : List ℕ) → n ≤ x → outside n (x ∷ s) ≡ outside n s
outside_same zero x s h = refl
outside_same (suc n) x s h = ground (arith, outside_same n x s)

pub outside_insert :
    (n x : ℕ) (s : List ℕ) → x < n → elem x s ≡ false → suc (outside n (x ∷ s)) ≡ outside n s
outside_insert zero x s h e = absurd (omega arith)
outside_insert (suc n) x s h e =
    ground (arith, outside_insert n x s, outside_same n x s, ==_iff x n)

pub outside-le : (n : ℕ) (s : List ℕ) → outside n s ≤ n
outside-le zero s = omega arith
outside-le (suc n) s = ground (arith, outside-le n s)

-- Every block of the list lies below `n`.
abbrev pub Below : ℕ → List ℕ → Type 0
Below n xs = (a : ℕ) → elem a xs ≡ true → a < n

module _ (push : ℕ → List ℕ → List ℕ) (law : IsPush push) (n : ℕ) where
  abbrev work : Search → ℕ
  work s = outside n s.seen + length s.pending

  work-offer_all : (xs : List ℕ) (s : Search) → Below n xs → work (offer_all push xs s) ≡ work s
  unfolding offer_all offer
  work-offer_all [] s h = refl
  work-offer_all (x ∷ xs) s h = ground (
    arith,
    work-offer_all xs (offer push x s) (λ a p. h a (ground arith)),
    outside_insert n x s.seen (h x (ground arith)),
    law.length_push x s.pending,
  )

  -- With fuel for the work that is left the search ends.
  pub explore_ends :
      (next : ℕ → List ℕ) (fuel : ℕ) (s : Search)
      → ((a : ℕ) → Below n (next a))
      → work s ≤ fuel
      → (t : Search) × (explore push next fuel s ≡ some t)
  unfolding explore expand
  explore_ends next zero s b h = elim (List-cases s.pending) [
    | inl empty ↦ (s, ground arith)
    | inr (cur, rest, p) ↦ absurd (omega (arith, ap length p))
  ]
  explore_ends next (suc fuel) s b h = elim (List-cases s.pending) [
    | inl empty ↦ (s, ground arith)
    | inr (cur, rest, p) ↦
        let s' = record s { pending = rest; expanded = cur ∷ s.expanded } in
        let (t, e) =
          explore_ends next fuel (expand push next s cur rest) b
            (omega (arith, ap length p, work-offer_all (next cur) s' (b cur))) in
        (t, rw (p, explore) e)
  ]
