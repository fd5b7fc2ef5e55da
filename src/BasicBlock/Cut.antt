-- ===== src/BasicBlock/Cut.antt =====
-- What `isolate` does to the edges of the predecessors.
use cape_implementation.Prelude.{
  ℕ, ◌≡◌, refl, ap, ◌∙◌, Bool-cases, inl, inr, false, ◌||◌, ◌&&◌, not, List, [], ◌∷◌, arith, ◌==◌,
  ==_iff, elem,
}
use cape_implementation.BasicBlock.{
  BlockEdge, same_edge, has_edge, insert_edge, erase_edge, Store, set_next, add_successor,
  copy_edges, cut_edges, add_successors, reconnect,
}
use cape_implementation.BasicBlock.Edges.{
  has_target, edge, leads, comes, has_edge-insert_edge, has_edge-erase_edge, has_target-erase_edge,
  has_edge-has_target, has_target-edge, next-set_next, prev-set_next,
}
use cape_implementation.BasicBlock.Added.{
  chosen, edge-add_successor, leads-add_successor, comes-add_successor,
}

has_edge-copy_edges :
    (x l b k : ℕ) (es new : List BlockEdge)
    → has_edge (b, k) (copy_edges x l es new)
      ≡ (has_edge (b, k) new || (l == k && (not (b == x) && has_target b es)))
unfolding copy_edges
has_edge-copy_edges x l b k [] new = ground arith
has_edge-copy_edges x l b k ((t, m) ∷ es) new = elim (Bool-cases (t == x)) [
  | inl back ↦
      rw back (
        ground
          (arith, has_edge-copy_edges x l b k es new, back, ==_iff t x, ==_iff t b, ==_iff b x))
  | inr on ↦ rw on (
      ground (
        arith,
        has_edge-copy_edges x l b k es (insert_edge (t, l) new),
        has_edge-insert_edge t l b k new,
        on,
        ==_iff t x,
        ==_iff t b,
        ==_iff b x,
      ))
]

-- The edge is removed from the predecessor.
module _ (x p l : ℕ) (st : Store) where
  abbrev pub removed : Store
  removed = set_next p (erase_edge (x, l) (st p).next) st

  edge-removed :
      (a b k : ℕ) → edge removed a b k ≡ (not (p == a && same_edge (x, l) (b, k)) && edge st a b k)
  edge-removed a b k =
      let at_once =
        ap (has_edge (b, k)) (next-set_next p a (erase_edge (x, l) (st p).next) st)
        ∙ chosen (has_edge (b, k)) (p == a) (erase_edge (x, l) (st p).next) (st a).next in
      let same : p ≡ a → edge st p b k ≡ edge st a b k = λ e. ap (λ z. edge st z b k) e in
      ground (arith, at_once, same, has_edge-erase_edge x l b k (st p).next, ==_iff p a)

  leads-removed : (a b : ℕ) → (x == b) ≡ false → leads removed a b ≡ leads st a b
  leads-removed a b other =
      let at_once =
        ap (has_target b) (next-set_next p a (erase_edge (x, l) (st p).next) st)
        ∙ chosen (has_target b) (p == a) (erase_edge (x, l) (st p).next) (st a).next in
      let same : p ≡ a → leads st p b ≡ leads st a b = λ e. ap (λ z. leads st z b) e in
      ground (arith, at_once, same, has_target-erase_edge x l b (st p).next other, ==_iff p a)

  prev-removed : (y : ℕ) → (removed y).prev ≡ (st y).prev
  prev-removed y = prev-set_next p y (erase_edge (x, l) (st p).next) st

-- The loop over some edges of the predecessor.
record CutOff (x p : ℕ) (es new : List BlockEdge) (st : Store) (r : List BlockEdge × Store)
    : Type 0 where
  left :
      (a b k : ℕ)
      → edge r.1 a b k ≡ (not (p == a && (x == b && has_edge (x, k) es)) && edge st a b k)
  left_leads : (a b : ℕ) → (x == b) ≡ false → leads r.1 a b ≡ leads st a b
  left_prev : (y : ℕ) → (r.1 y).prev ≡ (st y).prev
  made :
      (b k : ℕ)
      → has_edge (b, k) r.0
        ≡ (has_edge (b, k) new || (not (x == b) && (has_edge (x, k) es && leads st x b)))

cut_edges-CutOff :
    (x p : ℕ) (es new : List BlockEdge) (st : Store)
    → CutOff x p es new st (cut_edges x p es (new, st))
unfolding cut_edges
cut_edges-CutOff x p [] new st = record {
  left = λ a b k. ground arith;
  left_leads = λ a b o. refl;
  left_prev = λ y. refl;
  made = λ b k. ground arith;
}
cut_edges-CutOff x p ((t, l) ∷ es) new st = elim (Bool-cases (t == x)) [
  | inr on ↦
      let rest = cut_edges-CutOff x p es new st in
      rw on (record {
        left = λ a b k. ground (arith, rest.left a b k, on);
        left_leads = rest.left_leads;
        left_prev = rest.left_prev;
        made = λ b k. ground (arith, rest.made b k, on);
      })
  | inl back ↦
      let same : t ≡ x = (==_iff t x).0 back in
      let copied = copy_edges x l (st x).next new in
      let rest = cut_edges-CutOff x p es copied (removed x p l st) in
      rw (back, same)
        (record {
          left = λ a b k.
              ground (arith, rest.left a b k, edge-removed x p l st a b k, ==_iff l k, ==_iff x x);
          left_leads = λ a b o. rest.left_leads a b o ∙ leads-removed x p l st a b o;
          left_prev = λ y. rest.left_prev y ∙ prev-removed x p l st y;
          made = λ b k. ground (
            arith,
            rest.made b k,
            has_edge-copy_edges x l b k (st x).next new,
            leads-removed x p l st x b,
            ==_iff x b,
            ==_iff b x,
            ==_iff l k,
            ==_iff x x,
          );
        })
]

-- The new edges are added to the predecessor.
module _ (p : ℕ) where
  edge-add_successors :
      (es : List BlockEdge) (st : Store) (a b k : ℕ)
      → edge (add_successors p es st) a b k ≡ ((p == a && has_edge (b, k) es) || edge st a b k)
  unfolding add_successors
  edge-add_successors [] st a b k = ground arith
  edge-add_successors ((t, l) ∷ es) st a b k = ground (
    arith,
    edge-add_successors es (add_successor p (t, l) st).1 a b k,
    edge-add_successor p t l st a b k,
  )

  leads-add_successors :
      (es : List BlockEdge) (st : Store) (a b : ℕ)
      → leads (add_successors p es st) a b ≡ ((p == a && has_target b es) || leads st a b)
  unfolding add_successors
  leads-add_successors [] st a b = ground arith
  leads-add_successors ((t, l) ∷ es) st a b = ground (
    arith,
    leads-add_successors es (add_successor p (t, l) st).1 a b,
    leads-add_successor p t l st a b,
  )

  comes-add_successors :
      (es : List BlockEdge) (st : Store) (b a : ℕ)
      → comes (add_successors p es st) b a ≡ ((p == a && has_target b es) || comes st b a)
  unfolding add_successors
  comes-add_successors [] st b a = ground arith
  comes-add_successors ((t, l) ∷ es) st b a = ground (
    arith,
    comes-add_successors es (add_successor p (t, l) st).1 b a,
    comes-add_successor p t l st b a,
  )

-- A predecessor and the block taken apart.
module _ (x p : ℕ) (st : Store) where
  abbrev cutting : List BlockEdge × Store
  cutting = cut_edges x p (st p).next ([], st)

  cut : CutOff x p (st p).next [] st cutting
  cut = cut_edges-CutOff x p (st p).next [] st

  made_target : (b : ℕ) → has_target b cutting.0 ≡ (not (x == b) && (leads st p x && leads st x b))
  made_target b = elim (Bool-cases (has_target b cutting.0)) [
    | inl some_edge ↦
        let (k, e) = has_target-edge b cutting.0 some_edge in
        ground (arith, some_edge, cut.made b k, e, has_edge-has_target x k (st p).next)
    | inr no_edge ↦ elim (Bool-cases (leads st p x)) [
      | inl there ↦
          let (k, e) = has_target-edge x (st p).next there in
          ground (arith, no_edge, cut.made b k, e, has_edge-has_target b k cutting.0)
      | inr away ↦ ground (arith, no_edge, away)
    ]
  ]

  pub edge-reconnect :
      (a b k : ℕ)
      → edge (reconnect x p st) a b k ≡ (
          (p == a && (not (x == b) && (edge st p x k && leads st x b)))
          || (not (p == a && x == b) && edge st a b k))
  unfolding reconnect
  edge-reconnect a b k =
      let same : p ≡ a → edge st p x k ≡ edge st a x k = λ e. ap (λ z. edge st z x k) e in
      let there : x ≡ b → edge st a x k ≡ edge st a b k = λ e. ap (λ z. edge st a z k) e in
      ground (
        arith,
        edge-add_successors p cutting.0 cutting.1 a b k,
        cut.made b k,
        cut.left a b k,
        same,
        there,
        ==_iff p a,
        ==_iff x b,
      )

  pub comes-reconnect :
      (b a : ℕ)
      → comes (reconnect x p st) b a
        ≡ ((p == a && (not (x == b) && (leads st p x && leads st x b))) || comes st b a)
  unfolding reconnect
  comes-reconnect b a =
      let same : comes cutting.1 b a ≡ comes st b a = ap (elem a) (cut.left_prev b) in
      ground (arith, comes-add_successors p cutting.0 cutting.1 b a, made_target b, same)

  pub leads-reconnect :
      (a b : ℕ)
      → (x == b) ≡ false
      → leads (reconnect x p st) a b ≡ ((p == a && (leads st p x && leads st x b)) || leads st a b)
  unfolding reconnect
  leads-reconnect a b other = ground (
    arith,
    leads-add_successors p cutting.0 cutting.1 a b,
    made_target b,
    cut.left_leads a b other,
    other,
  )
