-- ===== src/Ntscd/Predicates.antt =====
-- The predicates with colored and uncolored successors.
use cape_implementation.Prelude.{
  ℕ, ◌≡◌, ◌↔◌, ap, Bool, Bool-cases, inl, inr, true, false, ◌||◌, ◌&&◌, List, [], ◌∷◌, arith, ◌==◌,
  ==_iff, elem, elem-insert, insert,
}
use cape_implementation.NodesWalk.Ids.{update}
use cape_implementation.CdGraph.{CdGraph}
use cape_implementation.Ntscd.{
  Dependence, note_dependence, has_colored, has_uncolored, note_predicates,
}
use cape_implementation.Ntscd.Inevitable.{Controls}
use cape_implementation.Ntscd.Target.{IsColored}

module _ (g : CdGraph) where
  -- Both kinds of successors.
  abbrev splits : (ℕ → Bool) → ℕ → Bool
  splits colored p = has_colored colored (g.successors p) && has_uncolored colored (g.successors p)

  elem-update-insert :
      (f : ℕ → List ℕ) (n p m q : ℕ)
      → elem q (update f n (insert p (f n)) m) ≡ (elem q (f m) || (n == m && p == q))
  elem-update-insert f n p m q =
      let same : n ≡ m → elem q (f n) ≡ elem q (f m) = λ e. ap (λ z. elem q (f z)) e in
      ground (arith, same, ==_iff n m, elem-insert p q (f n))

  -- The predicates with both kinds of successors are noted, in both directions.
  pub note_predicates_lem :
      (colored : ℕ → Bool) (n : ℕ) (ps : List ℕ) (r : Dependence) (m q : ℕ)
      → (elem q ((note_predicates g colored n ps r).cd m)
          ≡ (elem q (r.cd m) || (n == m && (elem q ps && splits colored q))))
        × (elem m ((note_predicates g colored n ps r).rev_cd q)
            ≡ (elem m (r.rev_cd q) || (n == m && (elem q ps && splits colored q))))
  unfolding note_predicates note_dependence
  note_predicates_lem colored n [] r m q = (ground arith, ground arith)
  note_predicates_lem colored n (p ∷ ps) r m q =
      let same : p ≡ q → splits colored p ≡ splits colored q = λ e. ap (splits colored) e in
      elim (Bool-cases (splits colored p)) [
        | inl both ↦
            let rest = note_predicates_lem colored n ps (note_dependence n p r) m q in
            rw (note_predicates, both)
              (
                ground (arith, rest.0, elem-update-insert r.cd n p m q, same, both, ==_iff p q),
                ground (
                  arith,
                  rest.1,
                  elem-update-insert r.rev_cd p n q m,
                  same,
                  both,
                  ==_iff p q,
                  ==_iff n m,
                ),
              )
        | inr not_both ↦
            let rest = note_predicates_lem colored n ps r m q in
            rw (note_predicates, not_both)
              (
                ground (arith, rest.0, same, not_both, ==_iff p q),
                ground (arith, rest.1, same, not_both, ==_iff p q),
              )
      ]

  find_colored :
      (colored : ℕ → Bool) (ss : List ℕ)
      → has_colored colored ss ≡ true
      → (a : ℕ) × (elem a ss ≡ true) × (colored a ≡ true)
  find_colored colored [] e = absurd (ground (arith, e))
  find_colored colored (s ∷ ss) e = elim (Bool-cases (colored s)) [
    | inl here ↦ (s, ground (arith, ==_iff s s), here)
    | inr not_here ↦
        let (a, i, c) = find_colored colored ss (ground (arith, e, not_here)) in
        (a, ground (arith, i), c)
  ]

  find_uncolored :
      (colored : ℕ → Bool) (ss : List ℕ)
      → has_uncolored colored ss ≡ true
      → (a : ℕ) × (elem a ss ≡ true) × (colored a ≡ false)
  find_uncolored colored [] e = absurd (ground (arith, e))
  find_uncolored colored (s ∷ ss) e = elim (Bool-cases (colored s)) [
    | inr here ↦ (s, ground (arith, ==_iff s s), here)
    | inl not_here ↦
        let (a, i, c) = find_uncolored colored ss (ground (arith, e, not_here)) in
        (a, ground (arith, i), c)
  ]

  has_colored_of :
      (colored : ℕ → Bool) (ss : List ℕ) (a : ℕ)
      → elem a ss ≡ true
      → (colored a ≡ true → has_colored colored ss ≡ true)
        × (colored a ≡ false → has_uncolored colored ss ≡ true)
  has_colored_of colored [] a i = absurd (ground (arith, i))
  has_colored_of colored (s ∷ ss) a i =
      let same : s ≡ a → colored s ≡ colored a = λ e. ap colored e in
      (
        λ c. ground (arith, same, ==_iff s a, has_colored_of colored ss a),
        λ c. ground (arith, same, ==_iff s a, has_colored_of colored ss a),
      )

  pub splits-Controls :
      (t p : ℕ) (before after : ℕ → ℕ)
      → IsColored g t before after
      → (splits (λ s. after s == t) p ≡ true) ↔ Controls g p t
  splits-Controls t p before after c = (
    λ e.
        let (a, i, colored) =
          find_colored (λ s. after s == t) (g.successors p) (ground (arith, e)) in
        let (b, j, uncolored) =
          find_uncolored (λ s. after s == t) (g.successors p) (ground (arith, e)) in
        record {
          must = (a, i, (c.exact a).0 colored);
          may_not =
              (b, j, λ inevitable. absurd (ground (arith, uncolored, (c.exact b).1 inevitable)));
        },
    λ k.
        let (a, i, inevitable) = k.must in
        let (b, j, evitable) = k.may_not in
        let open_b : (after b == t) ≡ false = elim (Bool-cases (after b == t)) [
          | inl colored ↦ absurd (evitable ((c.exact b).0 colored))
          | inr u ↦ u
        ] in
        ground (
          arith,
          (has_colored_of (λ s. after s == t) (g.successors p) a i).0 ((c.exact a).1 inevitable),
          (has_colored_of (λ s. after s == t) (g.successors p) b j).1 open_b,
        ),
  )
