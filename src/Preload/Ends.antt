-- ===== src/Preload/Ends.antt =====
-- The recursion of `preloadBB` ends.
use cape_implementation.Prelude.{
  ℕ, zero, suc, ◌+◌, ◌-◌, ◌≤◌, ◌<◌, ◌≡◌, inl, inr, refl, Bool-cases, true, ◌||◌, Option, some, List,
  [], ◌∷◌, arith, elem,
}
use cape_implementation.Worklist.Ends.{outside, outside_insert, outside-le, Below}
use cape_implementation.Preload.{Bitcode, Names, emit, each, preload_call, preload_bb}

-- A loop ends where each round ends and keeps `P`.
each_ends :
    (visit : ℕ → Names → Option Names) (P : Names → Type 0) (xs : List ℕ) (s : Names)
    → ((x : ℕ) (t : Names) → elem x xs ≡ true → P t → (u : Names) × (visit x t ≡ some u) × P u)
    → P s
    → (t : Names) × (each visit xs s ≡ some t) × P t
unfolding each
each_ends visit P [] s h p = (s, refl, p)
each_ends visit P (x ∷ xs) s h p =
    let (u, e, q) = h x s (ground arith) p in
    let (t, f, r) = each_ends visit P xs u (λ y v m. h y v (ground arith)) q in
    (t, rw (e, each) f, r)

module _ (code : Bitcode) where
  module _ (n : ℕ) (finite : (b : ℕ) → Below n (code.calls b)) where
    preload_bb_ends_from :
        (fuel b k : ℕ) (s : Names)
        → k < fuel
        → outside n s.funcs ≤ k
        → (t : Names) × (preload_bb code fuel b s ≡ some t) × (outside n t.funcs ≤ k)
    unfolding preload_bb preload_call emit
    preload_bb_ends_from zero b k s lt h = absurd (omega arith)
    preload_bb_ends_from (suc fuel) b k s lt h =
        each_ends (preload_call code (preload_bb code fuel)) (λ t. outside n t.funcs ≤ k)
          (code.calls b) s
          (λ f t m p. elim (Bool-cases (code.is_debug f || elem f t.funcs)) [
            | inl skip ↦ (t, ground arith, p)
            | inr new ↦
                let fewer : suc (outside n (f ∷ t.funcs)) ≡ outside n t.funcs =
                  outside_insert n f t.funcs (finite b f m) (ground arith) in
                let (u, e, q) =
                  each_ends (preload_bb code fuel) (λ v. outside n v.funcs ≤ k - 1) (code.blocks f)
                    (emit f t) (λ c v _ q. preload_bb_ends_from fuel c (k - 1) v (omega arith) q)
                    (omega arith) in
                (u, ground arith, omega arith)
          ])
          h

    -- Where all called functions are numbered below `n`, fuel for each of them lets `preloadBB` return,
    -- with recursive functions too.
    pub preload_bb_ends : (b : ℕ) (s : Names) → (t : Names) × (preload_bb code (n + 1) b s ≡ some t)
    preload_bb_ends b s =
        let (t, e, _) = preload_bb_ends_from (n + 1) b n s (omega arith) (outside-le n s.funcs) in
        (t, e)
