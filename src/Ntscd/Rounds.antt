-- ===== src/Ntscd/Rounds.antt =====
-- The rounds of NTSCD2: they end, and color the nodes from which every path comes to the target.
use cape_implementation.Prelude.{
  ℕ, zero, suc, ◌+◌, ◌*◌, ◌≤◌, ◌<◌, ◌≡◌, ◌⊎◌, refl, ap, subst, ◌∙◌, Bool, Bool-cases, inl, inr,
  true, false, ◌||◌, ◌&&◌, List, [], ◌∷◌, arith, ◌==◌, ==_iff, if◌then◌else◌, elem, insert, place,
}
use mathlib.Core.Path.{fun_ext}
use cape_implementation.NodesWalk.Ids.{update}
use cape_implementation.CdGraph.{CdGraph, node_numbers, range}
use cape_implementation.Ntscd.{
  Coloring, all_colored, insert_uncolored, visit, visit_frontier, round,
}

-- How many of the nodes do not have the color.
abbrev pub uncolored : ℕ → (ℕ → ℕ) → List ℕ → ℕ
uncolored t color [] = 0
uncolored t color (x ∷ xs) = (if color x == t then 0 else 1) + uncolored t color xs

uncolored-update-le :
    (t n : ℕ) (color : ℕ → ℕ) (xs : List ℕ)
    → uncolored t (update color n t) xs ≤ uncolored t color xs
uncolored-update-le t n color [] = omega arith
uncolored-update-le t n color (x ∷ xs) =
    ground (arith, uncolored-update-le t n color xs, ==_iff t t)

uncolored-update-lt :
    (t n : ℕ) (color : ℕ → ℕ) (xs : List ℕ)
    → elem n xs ≡ true
    → (color n == t) ≡ false
    → uncolored t (update color n t) xs < uncolored t color xs
uncolored-update-lt t n color [] i u = absurd (ground (arith, i))
uncolored-update-lt t n color (x ∷ xs) i u =
    let same : x ≡ n → color x ≡ color n = λ e. ap color e in
    ground (
      arith,
      same,
      ==_iff x n,
      ==_iff n x,
      ==_iff t t,
      uncolored-update-le t n color xs,
      uncolored-update-lt t n color xs,
    )

pub uncolored-range : (t : ℕ) (color : ℕ → ℕ) (s n : ℕ) → uncolored t color (range s n) ≤ n
uncolored-range t color s zero = omega arith
uncolored-range t color s (suc n) = ground (arith, uncolored-range t color (suc s) n)

module _ (g : CdGraph) (t : ℕ) where
  -- A colored node of the frontier whose successors are colored; the round only takes it out.
  abbrev pub stale : (ℕ → ℕ) → ℕ → Bool
  stale color x = (color x == t) && all_colored g t color (g.successors x)

  abbrev pub any_stale : (ℕ → ℕ) → List ℕ → Bool
  any_stale color [] = false
  any_stale color (x ∷ xs) = stale color x || any_stale color xs

  any_stale-place :
      (color : ℕ → ℕ) (x : ℕ) (fr : List ℕ)
      → any_stale color (place x fr) ≡ (stale color x || any_stale color fr)
  any_stale-place color x [] = refl
  any_stale-place color x (y ∷ fr) = ground (arith, any_stale-place color x fr)

  any_stale_known :
      (color : ℕ → ℕ) (x : ℕ) (fr : List ℕ)
      → elem x fr ≡ true
      → stale color x ≡ true
      → any_stale color fr ≡ true
  any_stale_known color x [] i s = absurd (ground (arith, i))
  any_stale_known color x (y ∷ fr) i s =
      let same : y ≡ x → stale color y ≡ stale color x = λ e. ap (stale color) e in
      ground (arith, same, ==_iff y x, any_stale_known color x fr)

  any_stale-insert :
      (color : ℕ → ℕ) (x : ℕ) (fr : List ℕ)
      → stale color x ≡ false
      → any_stale color (insert x fr) ≡ any_stale color fr
  any_stale-insert color x fr s = ground (arith, any_stale-place color x fr)

  any_stale-insert_uncolored :
      (color : ℕ → ℕ) (ps fr : List ℕ)
      → any_stale color (insert_uncolored g t color ps fr) ≡ any_stale color fr
  unfolding insert_uncolored
  any_stale-insert_uncolored color [] fr = refl
  any_stale-insert_uncolored color (p ∷ ps) fr = elim (Bool-cases (color p == t)) [
    | inl old ↦ rw old (any_stale-insert_uncolored color ps fr)
    | inr new ↦ rw new (
        any_stale-insert_uncolored color ps (insert p fr)
        ∙ any_stale-insert color p fr (ground (arith, new)))
  ]

  -- A part of a round: it colors a node, or it changes no color and makes progress by stale nodes alone.
  Measured : List ℕ → Coloring → Coloring → Type 0
  Measured todo c r =
      (uncolored t r.color (node_numbers g) < uncolored t c.color (node_numbers g))
      ⊎ ((r.color ≡ c.color)
          × (any_stale c.color r.new_frontier ≡ any_stale c.color c.new_frontier)
          × (r.progress ≡ (c.progress || any_stale c.color todo)))

  Measured-then :
      (n : ℕ) (todo : List ℕ) (c d r : Coloring)
      → Measured (n ∷ []) c d
      → Measured todo d r
      → uncolored t r.color (node_numbers g) ≤ uncolored t d.color (node_numbers g)
      → Measured (n ∷ todo) c r
  unfolding Measured
  Measured-then n todo c d r (inl first) second le = inl (omega arith)
  Measured-then n todo c d r (inr first) (inl second) le = inl (
      subst (λ k. uncolored t r.color (node_numbers g) < uncolored t k (node_numbers g)) first.0
        second)
  Measured-then n todo c d r (inr first) (inr second) le =
      let stale_same = ap (λ k. any_stale k r.new_frontier) first.0 in
      let stale_kept = ap (λ k. any_stale k d.new_frontier) first.0 in
      let todo_same = ap (λ k. any_stale k todo) first.0 in
      inr (
        second.0 ∙ first.0,
        ground (arith, second.1, first.1, stale_same, stale_kept),
        ground (arith, second.2, first.2, todo_same),
      )

  visit_le :
      (n : ℕ) (c : Coloring)
      → uncolored t (visit g t n c).color (node_numbers g) ≤ uncolored t c.color (node_numbers g)
  unfolding visit
  visit_le n c = elim (Bool-cases (all_colored g t c.color (g.successors n))) [
    | inl all ↦ rw all (uncolored-update-le t n c.color (node_numbers g))
    | inr some_open ↦ rw some_open (omega arith)
  ]

  visit_frontier_le :
      (todo : List ℕ) (c : Coloring)
      → uncolored t (visit_frontier g t todo c).color (node_numbers g)
        ≤ uncolored t c.color (node_numbers g)
  unfolding visit_frontier
  visit_frontier_le [] c = omega arith
  visit_frontier_le (n ∷ todo) c =
      omega (arith, visit_frontier_le todo (visit g t n c), visit_le n c)

  visit-Measured :
      (n : ℕ) (c : Coloring) → elem n (node_numbers g) ≡ true → Measured (n ∷ []) c (visit g t n c)
  unfolding visit Measured
  visit-Measured n c i = elim (Bool-cases (all_colored g t c.color (g.successors n))) [
    | inr some_open ↦ rw some_open (
        inr (
          refl,
          any_stale-insert c.color n c.new_frontier (ground (arith, some_open)),
          ground (arith, some_open),
        ))
    | inl all ↦ elim (Bool-cases (c.color n == t)) [
      | inr new ↦ rw all (inl (uncolored-update-lt t n c.color (node_numbers g) i new))
      | inl old ↦
          let same : update c.color n t ≡ c.color = fun_ext (λ x. recolored n x c.color old) in
          rw all (
            inr (
              same,
              ap (λ k. any_stale c.color (insert_uncolored g t k (g.predecessors n) c.new_frontier))
                    same
                  ∙ any_stale-insert_uncolored c.color (g.predecessors n) c.new_frontier,
              ground (arith, all, old),
            ))
    ]
  ]
    where
      recolored : (n x : ℕ) (color : ℕ → ℕ) → (color n == t) ≡ true → update color n t x ≡ color x
      recolored n x color old =
          let same : n ≡ x → color n ≡ color x = λ e. ap color e in
          ground (arith, same, ==_iff n x, ==_iff (color n) t, old)

  visit_frontier-Measured :
      (todo : List ℕ) (c : Coloring)
      → ((x : ℕ) → elem x todo ≡ true → elem x (node_numbers g) ≡ true)
      → Measured todo c (visit_frontier g t todo c)
  unfolding visit_frontier Measured
  visit_frontier-Measured [] c inside = inr (refl, refl, ground arith)
  visit_frontier-Measured (n ∷ todo) c inside =
      Measured-then n todo c (visit g t n c) (visit_frontier g t todo (visit g t n c))
        (visit-Measured n c (inside n (ground (arith, ==_iff n n))))
        (visit_frontier-Measured todo (visit g t n c) (λ x i. inside x (ground (arith, i))))
        (visit_frontier_le todo (visit g t n c))

  abbrev pub measure : (ℕ → ℕ) → List ℕ → ℕ
  measure color fr = 2 * uncolored t color (node_numbers g) + (if any_stale color fr then 1 else 0)

  pub measure-round :
      (color : ℕ → ℕ) (fr : List ℕ)
      → ((x : ℕ) → elem x fr ≡ true → elem x (node_numbers g) ≡ true)
      → (round g t color fr).progress ≡ true
      → measure (round g t color fr).color (round g t color fr).new_frontier < measure color fr
  unfolding round Measured
  measure-round color fr inside e =
      let c : Coloring = record { color = color; new_frontier = []; progress = false } in
      elim (visit_frontier-Measured fr c inside) [
        | inl fewer ↦ ground (arith, fewer)
        | inr calm ↦
            let count_same = ap (λ k. uncolored t k (node_numbers g)) calm.0 in
            let stale_same = ap (λ k. any_stale k (visit_frontier g t fr c).new_frontier) calm.0 in
            ground (arith, calm.1, calm.2, e, count_same, stale_same)
      ]
