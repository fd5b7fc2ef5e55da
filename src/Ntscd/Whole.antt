-- ===== src/Ntscd/Whole.antt =====
-- NTSCD2 as a whole.
use cape_implementation.Prelude.{
  ℕ, zero, suc, ◌+◌, ◌*◌, ◌<◌, ◌≡◌, ◌↔◌, ◌⊎◌, refl, sym, subst, Bool-cases, inl, inr, true, arith,
  ◌==◌, ==_iff, elem, some,
}
use cape_implementation.NodesWalk.Ids.{update}
use cape_implementation.CdGraph.{CdGraph, node_numbers, range}
use cape_implementation.CdGraph.Build.{IsGraph}
use cape_implementation.Ntscd.{
  Dependence, no_dependence, note_predicates, compute_target, compute_targets, compute,
}
use cape_implementation.Ntscd.Inevitable.{Controls}
use cape_implementation.Ntscd.Target.{IsColored, color_target-IsColored}
use cape_implementation.Ntscd.Predicates.{note_predicates_lem, splits-Controls}

module _ (g : CdGraph) where
  -- The dependences after the targets from `s` on, where those before are `r`.
  record Noted (s n : ℕ) (r out : Dependence) : Type 0 where
    noted :
        (m q : ℕ)
        → (elem q (out.cd m) ≡ true) ↔ (
            (elem q (r.cd m) ≡ true)
            ⊎ ((elem m (range s n) ≡ true) × (elem q g.predicates ≡ true) × Controls g q m))
    mirrored :
        ((m q : ℕ) → elem m (r.rev_cd q) ≡ elem q (r.cd m))
        → (m q : ℕ) → elem m (out.rev_cd q) ≡ elem q (out.cd m)

  -- The dependences of one target, in front of the later ones.
  Noted-first :
      (s n : ℕ) (before after : ℕ → ℕ) (r out : Dependence)
      → IsColored g s before after
      → Noted (suc s) n (note_predicates g (λ x. after x == s) s g.predicates r) out
      → Noted s (suc n) r out
  Noted-first s n before after r out c rest =
      let step = λ (m q : ℕ). note_predicates_lem g (λ x. after x == s) s g.predicates r m q in
      record {
        noted = λ m q. (
          λ e. elim ((rest.noted m q).0 e) [
            | inr later ↦ inr (ground (arith, later.0), later.1, later.2)
            | inl now ↦ elim (Bool-cases (elem q (r.cd m))) [
              | inl before_it ↦ inl before_it
              | inr new ↦
                  let at : (s == m) ≡ true = ground (arith, (step m q).0, now, new) in
                  inr (
                    ground (arith, at),
                    ground (arith, (step m q).0, now, new),
                    subst (Controls g q) ((==_iff s m).0 at) (
                        (splits-Controls g s q before after c).0
                          (ground (arith, (step m q).0, now, new))),
                  )
            ]
          ],
          λ e. elim e [
            | inl old ↦ (rest.noted m q).1 (inl (ground (arith, (step m q).0, old)))
            | inr (i, p, k) ↦ elim (Bool-cases (s == m)) [
              | inl same ↦
                  let at_s : Controls g q s = subst (Controls g q) (sym ((==_iff s m).0 same)) k in
                  (rest.noted m q).1 (
                    inl (
                      ground (
                        arith,
                        (step m q).0,
                        same,
                        p,
                        (splits-Controls g s q before after c).1 at_s,
                      )))
              | inr other ↦ (rest.noted m q).1 (inr (ground (arith, i, other), p, k))
            ]
          ],
        );
        mirrored =
            λ h m q. rest.mirrored (λ a b. ground (arith, (step a b).0, (step a b).1, h a b)) m q;
      }

  module _ (h : IsGraph g) where
    compute_targets-Noted :
        (fuel n s : ℕ) (color : ℕ → ℕ) (r : Dependence)
        → ((x : ℕ) → color x < s)
        → 2 * g.size + 1 < fuel
        → (out : Dependence) × (compute_targets g fuel (range s n) color r ≡ some out)
          × Noted s n r out
    unfolding compute_targets compute_target
    compute_targets-Noted fuel zero s color r low enough = (
      r,
      refl,
      record {
        noted = λ m q.
            (λ e. inl e, λ e. elim e [ inl old ↦ old | inr new ↦ absurd (ground (arith, new.0)) ]);
        mirrored = λ k. k;
      },
    )
    compute_targets-Noted fuel (suc n) s color r low enough =
        let (after, e, c) =
          color_target-IsColored g s h fuel color (λ x. ground (arith, low x)) enough in
        let low_after : (x : ℕ) → after x < suc s = λ x. elim (c.kept x) [
          | inl new ↦ omega (arith, new)
          | inr old ↦ ground (arith, old, low x)
        ] in
        let (out, f, rest) =
          compute_targets-Noted fuel n (suc s) after
            (note_predicates g (λ x. after x == s) s g.predicates r) low_after enough in
        (out, rw e f, Noted-first s n (update color s s) after r out c rest)

    -- On a well formed graph NTSCD2 returns, with more fuel than twice the number of nodes and one: a node
    -- depends on a predicate exactly if from one successor of the predicate every path comes to the node
    -- and from another one not, and the reverse dependences are the same pairs.
    pub compute_correct :
        (fuel : ℕ)
        → 2 * g.size + 1 < fuel
        → (out : Dependence) × (compute g fuel ≡ some out)
          × ((n p : ℕ)
              → (elem p (out.cd n) ≡ true) ↔ (
                  (elem n (node_numbers g) ≡ true) × (elem p g.predicates ≡ true) × Controls g p n))
          × ((n p : ℕ) → elem n (out.rev_cd p) ≡ elem p (out.cd n))
    unfolding compute no_dependence
    compute_correct fuel enough =
        let (out, e, d) =
          compute_targets-Noted fuel g.size 1 (λ n. 0) no_dependence (λ x. omega arith) enough in
        (
          out,
          e,
          λ n p. (
            λ k. elim ((d.noted n p).0 k) [
              | inl old ↦ absurd (ground (arith, old))
              | inr both ↦ both
            ],
            λ k. (d.noted n p).1 (inr k),
          ),
          d.mirrored (λ m q. refl),
        )
