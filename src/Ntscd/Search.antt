-- ===== src/Ntscd/Search.antt =====
-- The coloring of NTSCD2: what is colored, and what waits in the frontier.
use cape_implementation.Prelude.{
  ℕ, ◌≡◌, refl, sym, ap, ◌∙◌, Bool-cases, inl, inr, subst, true, false, ◌||◌, ◌&&◌, List, [], ◌∷◌,
  arith, ◌==◌, ==_iff, if◌then◌else◌, elem, elem-insert, insert,
}
use cape_implementation.NodesWalk.Ids.{update}
use cape_implementation.CdGraph.{CdGraph}
use cape_implementation.CdGraph.Build.{IsGraph}
use cape_implementation.Ntscd.{Coloring, all_colored, insert_uncolored, visit, visit_frontier}
use cape_implementation.Ntscd.Inevitable.{Inevitable, by_all}

module _ (g : CdGraph) (t : ℕ) where
  pub all_colored_each :
      (color : ℕ → ℕ) (ss : List ℕ) (x : ℕ)
      → all_colored g t color ss ≡ true
      → elem x ss ≡ true
      → (color x == t) ≡ true
  all_colored_each color [] x h i = absurd (ground arith)
  all_colored_each color (s ∷ ss) x h i =
      let same : s ≡ x → color s ≡ color x = λ e. ap color e in
      ground (arith, same, ==_iff s x, all_colored_each color ss x)

  pub all_colored_whole :
      (color : ℕ → ℕ) (ss : List ℕ)
      → ((x : ℕ) → elem x ss ≡ true → (color x == t) ≡ true)
      → all_colored g t color ss ≡ true
  all_colored_whole color [] h = refl
  all_colored_whole color (s ∷ ss) h =
      ground (arith, h s, ==_iff s s, all_colored_whole color ss (λ x i. h x (ground (arith, i))))

  pub elem-insert_uncolored :
      (color : ℕ → ℕ) (ps fr : List ℕ) (x : ℕ)
      → (elem x (insert_uncolored g t color ps fr))
        ≡ (elem x fr || (elem x ps && (if color x == t then false else true)))
  unfolding insert_uncolored
  elem-insert_uncolored color [] fr x = ground arith
  elem-insert_uncolored color (p ∷ ps) fr x =
      let same : p ≡ x → color p ≡ color x = λ e. ap color e in
      ground (
        arith,
        same,
        ==_iff p x,
        elem-insert_uncolored color ps (if color p == t then fr else insert p fr) x,
        elem-insert p x fr,
      )

  -- The search for the target, with the nodes of the frontier that are still to be visited.
  pub record IsSearch (color : ℕ → ℕ) (new todo : List ℕ) : Type 0 where
    pub sound : (x : ℕ) → (color x == t) ≡ true → Inevitable g t x
    pub waiting :
        (p : ℕ) → (elem p new || elem p todo) ≡ true → (s : ℕ) × (elem s (g.successors p) ≡ true)
    pub ready :
        (p s : ℕ)
        → (color s == t) ≡ true
        → elem s (g.successors p) ≡ true
        → (color p == t) ≡ false
        → (elem p new || elem p todo) ≡ true
    pub begun : (color t == t) ≡ true

  module _ (h : IsGraph g) where
    visit-IsSearch :
        (n : ℕ) (todo : List ℕ) (c : Coloring)
        → IsSearch c.color c.new_frontier (n ∷ todo)
        → IsSearch (visit g t n c).color (visit g t n c).new_frontier todo
    unfolding visit
    visit-IsSearch n todo c q = elim (Bool-cases (all_colored g t c.color (g.successors n))) [
      | inl all ↦
          let (s, edge) = q.waiting n (ground (arith, ==_iff n n)) in
          let reached : Inevitable g t n =
            by_all s edge (λ x i. q.sound x (all_colored_each c.color (g.successors n) x all i)) in
          let color = update c.color n t in
          let added = elem-insert_uncolored color (g.predecessors n) c.new_frontier in
          rw all (record {
            sound = λ x e. elim (Bool-cases (n == x)) [
              | inl same ↦ subst (Inevitable g t) ((==_iff n x).0 same) reached
              | inr other ↦ q.sound x (ground (arith, e, other))
            ];
            waiting = λ p i. elim (Bool-cases (elem p c.new_frontier || elem p todo)) [
              | inl before ↦ q.waiting p (ground (arith, before))
              | inr fresh ↦ (n, ground (arith, added p, h.agree p n, i, fresh))
            ];
            ready = λ p x e f u. elim (Bool-cases (n == x)) [
              | inl same ↦
                  let at_n : elem n (g.successors p) ≡ elem x (g.successors p) =
                    ap (λ z. elem z (g.successors p)) ((==_iff n x).0 same) in
                  ground (arith, added p, h.agree p n, at_n, f, u)
              | inr other ↦
                  ground (arith, added p, q.ready p x, e, f, u, other, ==_iff n p, ==_iff t t)
            ];
            begun = ground (arith, q.begun, ==_iff t t);
          })
      | inr some_open ↦ rw some_open (record {
        sound = q.sound;
        waiting = λ p i. q.waiting p (ground (arith, elem-insert n p c.new_frontier, i));
        ready = λ p x e f u. ground (arith, q.ready p x e f u, elem-insert n p c.new_frontier);
        begun = q.begun;
      })
    ]

    pub visit_frontier-IsSearch :
        (todo : List ℕ) (c : Coloring)
        → IsSearch c.color c.new_frontier todo
        → IsSearch (visit_frontier g t todo c).color (visit_frontier g t todo c).new_frontier []
    unfolding visit_frontier
    visit_frontier-IsSearch [] c q = q
    visit_frontier-IsSearch (n ∷ todo) c q =
        visit_frontier-IsSearch todo (visit g t n c) (visit-IsSearch n todo c q)

    -- Once a round makes progress it keeps it.
    visit_frontier_progress :
        (todo : List ℕ) (c : Coloring)
        → c.progress ≡ true
        → (visit_frontier g t todo c).progress ≡ true
    unfolding visit_frontier visit
    visit_frontier_progress [] c e = e
    visit_frontier_progress (n ∷ todo) c e =
        visit_frontier_progress todo (visit g t n c) (ground (arith, e))

    -- A round without progress colors nothing, and each node of the frontier has an uncolored successor.
    pub visit_frontier_stuck :
        (todo : List ℕ) (c : Coloring)
        → (visit_frontier g t todo c).progress ≡ false
        → ((visit_frontier g t todo c).color ≡ c.color)
          × ((x : ℕ) → elem x todo ≡ true → all_colored g t c.color (g.successors x) ≡ false)
    unfolding visit_frontier visit
    visit_frontier_stuck [] c e = (refl, λ x i. absurd (ground (arith, i)))
    visit_frontier_stuck (n ∷ todo) c e =
        elim (Bool-cases (all_colored g t c.color (g.successors n))) [
          | inl all ↦ absurd (
              ground (arith, e, visit_frontier_progress todo (visit g t n c) (ground (arith, all))))
          | inr some_open ↦
              let unchanged : visit g t n c ≡ record c { new_frontier = insert n c.new_frontier } =
                rw some_open refl in
              let rest =
                visit_frontier_stuck todo (record c { new_frontier = insert n c.new_frontier })
                  (ap (λ z. (visit_frontier g t todo z).progress) (sym unchanged) ∙ e) in
              (
                ap (λ z. (visit_frontier g t todo z).color) unchanged ∙ rest.0,
                λ x i.
                    let same : n ≡ x
                        → all_colored g t c.color (g.successors n)
                          ≡ all_colored g t c.color (g.successors x) =
                      λ z. ap (λ y. all_colored g t c.color (g.successors y)) z in
                    ground (arith, same, ==_iff n x, some_open, i, rest.1 x),
              )
        ]
