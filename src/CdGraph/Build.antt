-- ===== src/CdGraph/Build.antt =====
-- The invariant of the graph, kept while it is built.
use cape_implementation.Prelude.{
  ℕ, zero, suc, ◌+◌, ◌≤◌, ◌<◌, ◌≡◌, refl, sym, ap, ◌∙◌, Bool-cases, inl, inr, true, false, ◌||◌,
  ◌&&◌, List, [], ◌∷◌, ◌++◌, arith, ◌==◌, ==_iff, ltb, leb, elem, elem-append, elem-insert, insert,
  length, length-append,
}
use cape_implementation.NodesWalk.Ids.{update}
use cape_implementation.CdGraph.{
  CdGraph, range, new_graph, create_node, add_predecessor, add_edge, add_node_successor,
}

pub elem-range : (s n x : ℕ) → elem x (range s n) ≡ (leb s x && ltb x (s + n))
elem-range s zero x = ground arith
elem-range s (suc n) x = ground (arith, elem-range (suc s) n x)

-- Successors and predecessors agree and are node_numbers, and the predicates are the nodes with more than one
-- successor.
pub record IsGraph (g : CdGraph) : Type 0 where
  pub agree : (p s : ℕ) → elem p (g.predecessors s) ≡ elem s (g.successors p)
  pub from_nodes : (p s : ℕ) → elem s (g.successors p) ≡ true → (0 < p) × (p ≤ g.size)
  pub to_nodes : (p s : ℕ) → elem s (g.successors p) ≡ true → (0 < s) × (s ≤ g.size)
  pub many : (p : ℕ) → elem p g.predicates ≡ ltb 1 (length (g.successors p))

pub new_graph-IsGraph : IsGraph new_graph
unfolding new_graph
new_graph-IsGraph = record {
  agree = λ p s. refl;
  from_nodes = λ p s h. absurd (ground arith);
  to_nodes = λ p s h. absurd (ground arith);
  many = λ p. refl;
}

pub create_node-IsGraph : (g : CdGraph) → IsGraph g → IsGraph (create_node g).1
unfolding create_node
create_node-IsGraph g h = record {
  agree = h.agree;
  from_nodes = λ p s e. omega (arith, h.from_nodes p s e);
  to_nodes = λ p s e. omega (arith, h.to_nodes p s e);
  many = h.many;
}

elem-update :
    (f : ℕ → List ℕ) (n s p x : ℕ)
    → elem x (update f n (f n ++ s ∷ []) p) ≡ (elem x (f p) || (n == p && s == x))
elem-update f n s p x =
    let same : n ≡ p → elem x (f n) ≡ elem x (f p) = λ e. ap (λ z. elem x (f z)) e in
    ground (arith, same, ==_iff n p, elem-append x (f n) (s ∷ []))

-- The edges after `addSuccessor`.
record Grown (n s : ℕ) (g after : CdGraph) : Type 0 where
  succ_of :
      (p x : ℕ) → elem x (after.successors p) ≡ (elem x (g.successors p) || (n == p && s == x))
  pred_of :
      (p x : ℕ) → elem p (after.predecessors x) ≡ (elem p (g.predecessors x) || (n == p && s == x))
  many_of : (p : ℕ) → (n == p) ≡ false → after.successors p ≡ g.successors p
  longer : length (g.successors n) ≤ length (after.successors n)
  same_rest : (after.size ≡ g.size) × (after.predicates ≡ g.predicates)

add_predecessor_pred :
    (n s : ℕ) (g : CdGraph) (p x : ℕ)
    → elem p ((add_predecessor n s g).predecessors x)
      ≡ (elem p (g.predecessors x) || (n == p && s == x))
unfolding add_predecessor
add_predecessor_pred n s g p x = elim (Bool-cases (elem n (g.predecessors s))) [
  | inl old ↦
      let there : n ≡ p → s ≡ x → elem p (g.predecessors x) ≡ true = λ e f.
        ap (λ z. elem p (g.predecessors z)) (sym f)
        ∙ ap (λ z. elem z (g.predecessors s)) (sym e)
        ∙ old in
      rw old (ground (arith, there, ==_iff n p, ==_iff s x))
  | inr new ↦ rw new (ground (arith, elem-update g.predecessors s n x p))
]

add_predecessor_rest :
    (n s : ℕ) (g : CdGraph)
    → ((add_predecessor n s g).successors ≡ g.successors)
      × ((add_predecessor n s g).size ≡ g.size)
      × ((add_predecessor n s g).predicates ≡ g.predicates)
unfolding add_predecessor
add_predecessor_rest n s g = elim (Bool-cases (elem n (g.predecessors s))) [
  | inl old ↦ rw old (refl, refl, refl)
  | inr new ↦ rw new (refl, refl, refl)
]

add_edge-Grown : (n s : ℕ) (g : CdGraph) → IsGraph g → Grown n s g (add_edge n s g)
unfolding add_edge
add_edge-Grown n s g h = elim (Bool-cases (elem s (g.successors n))) [
  | inl old ↦
      let there : (p x : ℕ) → n ≡ p → s ≡ x → elem x (g.successors p) ≡ true = λ p x e f.
        ap (λ z. elem z (g.successors p)) (sym f)
        ∙ ap (λ z. elem s (g.successors z)) (sym e)
        ∙ old in
      rw old (record {
        succ_of = λ p x. ground (arith, there p x, ==_iff n p, ==_iff s x);
        pred_of = λ p x. ground (arith, there p x, h.agree p x, ==_iff n p, ==_iff s x);
        many_of = λ p e. refl;
        longer = omega arith;
        same_rest = (refl, refl);
      })
  | inr new ↦
      let g' = record g { successors = update g.successors n (g.successors n ++ s ∷ []) } in
      let rest = add_predecessor_rest n s g' in
      rw new (record {
        succ_of = λ p x. ap (λ f. elem x (f p)) rest.0 ∙ elem-update g.successors n s p x;
        pred_of = λ p x. add_predecessor_pred n s g' p x;
        many_of = λ p e. ap (λ f. f p) rest.0 ∙ rw e refl;
        longer = grown rest.0;
        same_rest = (rest.1, rest.2);
      })
]
  where
    grown :
        (add_predecessor n s
            (record g { successors = update g.successors n (g.successors n ++ s ∷ []) })).successors
          ≡ update g.successors n (g.successors n ++ s ∷ [])
        → length (g.successors n)
          ≤ length (
              (add_predecessor n s (record g {
                successors = update g.successors n (g.successors n ++ s ∷ []);
              })).successors
                n)
    grown e =
        ground
          (arith, ap (λ f. length (f n)) e, length-append {0} (g.successors n) (s ∷ []), ==_iff n n)

-- A new edge between two nodes keeps the graph well formed, and is its only new edge.
pub add_node_successor-IsGraph :
    (n s : ℕ) (g : CdGraph)
    → IsGraph g
    → (0 < n) × (n ≤ g.size)
    → (0 < s) × (s ≤ g.size)
    → IsGraph (add_node_successor n s g)
      × ((p x : ℕ)
          → elem x ((add_node_successor n s g).successors p)
            ≡ (elem x (g.successors p) || (n == p && s == x)))
unfolding add_node_successor
add_node_successor-IsGraph n s g h from to =
    let next = add_edge n s g in
    let e = add_edge-Grown n s g h in
    let made : (ps : List ℕ)
        → ((p : ℕ) → elem p ps ≡ ltb 1 (length (next.successors p)))
        → IsGraph (record next { predicates = ps }) =
      λ ps q. record {
        agree = λ p x. ground (arith, e.succ_of p x, e.pred_of p x, h.agree p x);
        from_nodes = λ p x i.
            ground (arith, e.succ_of p x, e.same_rest.0, h.from_nodes p x, ==_iff n p, from, i);
        to_nodes = λ p x i.
            ground (arith, e.succ_of p x, e.same_rest.0, h.to_nodes p x, ==_iff s x, to, i);
        many = q;
      } in
    let old : (p : ℕ) → elem p next.predicates ≡ ltb 1 (length (g.successors p)) =
      λ p. ap (elem p) e.same_rest.1 ∙ h.many p in
    let at : (p : ℕ) → n ≡ p → length (next.successors n) ≡ length (next.successors p) =
      λ p q. ap (λ z. length (next.successors z)) q in
    let at_old : (p : ℕ) → n ≡ p → length (g.successors n) ≡ length (g.successors p) =
      λ p q. ap (λ z. length (g.successors z)) q in
    let away : (p : ℕ) → (n == p) ≡ false → length (next.successors p) ≡ length (g.successors p) =
      λ p q. ap length (e.many_of p q) in
    elim (Bool-cases (ltb 1 (length (next.successors n)))) [
      | inl many ↦ rw many (
        made (insert n next.predicates) (λ p. ground (
          arith,
          elem-insert n p next.predicates,
          old p,
          at p,
          at_old p,
          away p,
          e.longer,
          many,
          ==_iff n p,
        )),
        e.succ_of,
      )
      | inr few ↦ rw few (
        made next.predicates
            (λ p. ground (arith, old p, at p, at_old p, away p, e.longer, few, ==_iff n p)),
        e.succ_of,
      )
    ]
