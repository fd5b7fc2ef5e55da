-- ===== src/Ntscd/Target.antt =====
-- The coloring for one target.
use cape_implementation.Prelude.{
  ℕ, zero, suc, ◌+◌, ◌*◌, ◌<◌, ◌≡◌, ◌↔◌, ◌⊎◌, refl, sym, ap, ◌∙◌, Bool-cases, inl, inr, true, false,
  ◌&&◌, List, [], ◌∷◌, arith, ◌==◌, ==_iff, if◌then◌else◌, elem, some,
}
use cape_implementation.NodesWalk.Ids.{update}
use cape_implementation.CdGraph.{CdGraph, node_numbers}
use cape_implementation.CdGraph.Build.{IsGraph, elem-range}
use cape_implementation.Ntscd.{
  Coloring, all_colored, visit, visit_frontier, round, color_loop, color_target, insert_uncolored,
}
use cape_implementation.Ntscd.Inevitable.{Inevitable, is_target, by_all}
use cape_implementation.Ntscd.Search.{
  IsSearch, all_colored_whole, elem-insert_uncolored, visit_frontier-IsSearch, visit_frontier_stuck,
}
use cape_implementation.Ntscd.Rounds.{uncolored-range, measure, measure-round}

module _ (g : CdGraph) (t : ℕ) where
  visit_keeps :
      (n : ℕ) (c : Coloring) (x : ℕ)
      → ((visit g t n c).color x ≡ t) ⊎ ((visit g t n c).color x ≡ c.color x)
  unfolding visit
  visit_keeps n c x = elim (Bool-cases (all_colored g t c.color (g.successors n))) [
    | inl all ↦ elim (Bool-cases (n == x)) [
      | inl same ↦ rw all (inl (rw same refl))
      | inr other ↦ rw all (inr (rw other refl))
    ]
    | inr some_open ↦ rw some_open (inr refl)
  ]

  visit_frontier_keeps :
      (todo : List ℕ) (c : Coloring) (x : ℕ)
      → ((visit_frontier g t todo c).color x ≡ t)
        ⊎ ((visit_frontier g t todo c).color x ≡ c.color x)
  unfolding visit_frontier
  visit_frontier_keeps [] c x = inr refl
  visit_frontier_keeps (n ∷ todo) c x = elim (visit_frontier_keeps todo (visit g t n c) x) [
    | inl new ↦ inl new
    | inr old ↦ elim (visit_keeps n c x) [
      | inl new ↦ inl (old ∙ new)
      | inr older ↦ inr (old ∙ older)
    ]
  ]

  -- The coloring of the target, made from another one.
  pub record IsColored (before after : ℕ → ℕ) : Type 0 where
    pub exact : (x : ℕ) → ((after x == t) ≡ true) ↔ Inevitable g t x
    pub kept : (x : ℕ) → (after x ≡ t) ⊎ (after x ≡ before x)

  -- Without a node that waits for its successors alone, all that is inevitable is colored.
  complete :
      (color : ℕ → ℕ) (fr : List ℕ)
      → IsSearch g t color [] fr
      → ((x : ℕ) → elem x fr ≡ true → all_colored g t color (g.successors x) ≡ false)
      → (x : ℕ) → Inevitable g t x
      → (color x == t) ≡ true
  complete color fr q stuck x (is_target e) = ap (λ z. color z == t) e ∙ q.begun
  complete color fr q stuck x (by_all s edge all) =
      let colored : (y : ℕ) → elem y (g.successors x) ≡ true → (color y == t) ≡ true =
        λ y i. complete color fr q stuck y (all y i) in
      let whole = all_colored_whole g t color (g.successors x) colored in
      elim (Bool-cases (color x == t)) [
        | inl yes_colored ↦ yes_colored
        | inr open_node ↦
            absurd (ground (arith, whole, stuck x, q.ready x s (colored s edge) edge open_node))
      ]

  module _ (h : IsGraph g) where
    -- What a round leaves is a search with its new frontier.
    round-IsSearch :
        (color : ℕ → ℕ) (fr : List ℕ)
        → IsSearch g t color [] fr
        → IsSearch g t (round g t color fr).color [] (round g t color fr).new_frontier
    unfolding round
    round-IsSearch color fr q =
        let r =
          visit_frontier-IsSearch g t h fr
            (record { color = color; new_frontier = []; progress = false }) q in
        record {
          sound = r.sound;
          waiting = λ p i. r.waiting p (ground (arith, i));
          ready = λ p s e f u. ground (arith, r.ready p s e f u);
          begun = r.begun;
        }

    inside :
        (color : ℕ → ℕ) (fr : List ℕ)
        → IsSearch g t color [] fr
        → (x : ℕ) → elem x fr ≡ true
        → elem x (node_numbers g) ≡ true
    inside color fr q x i =
        let (s, edge) = q.waiting x (ground (arith, i)) in
        ground (arith, elem-range 1 g.size x, h.from_nodes x s edge)

    round_keeps :
        (color : ℕ → ℕ) (fr : List ℕ) (x : ℕ)
        → ((round g t color fr).color x ≡ t) ⊎ ((round g t color fr).color x ≡ color x)
    unfolding round
    round_keeps color fr x =
        visit_frontier_keeps fr (record { color = color; new_frontier = []; progress = false }) x

    round_stuck :
        (color : ℕ → ℕ) (fr : List ℕ)
        → (round g t color fr).progress ≡ false
        → ((round g t color fr).color ≡ color)
          × ((x : ℕ) → elem x fr ≡ true → all_colored g t color (g.successors x) ≡ false)
    unfolding round
    round_stuck color fr e =
        visit_frontier_stuck g t h fr
          (record { color = color; new_frontier = []; progress = false }) e

    color_loop-IsColored :
        (fuel : ℕ) (color : ℕ → ℕ) (fr : List ℕ)
        → IsSearch g t color [] fr
        → measure g t color fr < fuel
        → (after : ℕ → ℕ) × (color_loop g fuel t color fr ≡ some after) × IsColored color after
    unfolding color_loop
    color_loop-IsColored zero color fr q m = absurd (omega arith)
    color_loop-IsColored (suc fuel) color fr q m =
        let r = round g t color fr in
        let kept : (x : ℕ) → (r.color x ≡ t) ⊎ (r.color x ≡ color x) = round_keeps color fr in
        elim (Bool-cases r.progress) [
          | inl goes_on ↦
              let (after, e, c) =
                color_loop-IsColored fuel r.color r.new_frontier (round-IsSearch color fr q)
                  (omega (arith, measure-round g t color fr (inside color fr q) goes_on)) in
              (
                after,
                rw goes_on e,
                record {
                  exact = c.exact;
                  kept = λ x. elim (c.kept x) [
                    | inl new ↦ inl new
                    | inr old ↦ elim (kept x) [
                      | inl new ↦ inl (old ∙ new)
                      | inr older ↦ inr (old ∙ older)
                    ]
                  ];
                },
              )
          | inr done ↦
              let (same, stuck) = round_stuck color fr done in
              (
                r.color,
                rw done refl,
                record {
                  exact = λ x. (
                    λ e. (round-IsSearch color fr q).sound x e,
                    λ i. ap (λ k. k x == t) same ∙ complete color fr q stuck x i,
                  );
                  kept = kept;
                },
              )
        ]

    -- From a coloring without the target's color.
    pub color_target-IsColored :
        (fuel : ℕ) (color : ℕ → ℕ)
        → ((x : ℕ) → (color x == t) ≡ false)
        → 2 * g.size + 1 < fuel
        → (after : ℕ → ℕ) × (color_target g fuel t color ≡ some after)
          × IsColored (update color t t) after
    unfolding color_target
    color_target-IsColored fuel color fresh enough =
        let first = update color t t in
        let fr = insert_uncolored g t first (g.predecessors t) [] in
        let from : (p : ℕ)
            → elem p fr ≡ (elem p (g.predecessors t) && (if first p == t then false else true)) =
          λ p. elem-insert_uncolored g t first (g.predecessors t) [] p in
        color_loop-IsColored fuel first fr
          (record {
            sound = λ x e. is_target (ground (arith, e, fresh x, ==_iff t x));
            waiting = λ p i. (t, ground (arith, from p, i, h.agree p t));
            ready = λ p s e f u.
                let at_t : (t == s) ≡ true → elem s (g.successors p) ≡ elem t (g.successors p) =
                  λ k. ap (λ z. elem z (g.successors p)) (sym ((==_iff t s).0 k)) in
                ground (arith, e, f, u, fresh s, from p, h.agree p t, at_t);
            begun = ground (arith, ==_iff t t);
          })
          (ground (arith, uncolored-range t first 1 g.size, enough))
