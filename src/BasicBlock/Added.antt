-- ===== src/BasicBlock/Added.antt =====
-- What addSuccessor does to the edges.
use cape_implementation.Prelude.{
  ℕ, ◌≡◌, refl, ap, ◌∙◌, Bool, true, false, ◌||◌, ◌&&◌, arith, ◌==◌, ==_iff, if◌then◌else◌, elem,
  insert, elem-insert,
}
use cape_implementation.BasicBlock.{
  same_edge, has_edge, insert_edge, Store, set_next, add_successor,
}
use cape_implementation.BasicBlock.Edges.{
  has_target, edge, leads, comes, has_edge-insert_edge, has_target-insert_edge, next-set_next,
  prev-set_next, prev-set_prev, next-set_prev,
}

-- A test of a set that is chosen.
pub chosen :
    {A : Type 0} (f : A → Bool) (c : Bool) (x y : A)
    → f (if c then x else y) ≡ (if c then f x else f y)
chosen f true x y = refl
chosen f false x y = refl

module _ (p t l : ℕ) (st : Store) where
  next-add_successor :
      (y : ℕ)
      → ((add_successor p (t, l) st).1 y).next
        ≡ (if p == y then insert_edge (t, l) (st p).next else (st y).next)
  unfolding add_successor
  next-add_successor y =
      next-set_prev t y _ (set_next p (insert_edge (t, l) (st p).next) st)
      ∙ next-set_next p y (insert_edge (t, l) (st p).next) st

  pub edge-add_successor :
      (a b k : ℕ)
      → edge (add_successor p (t, l) st).1 a b k
        ≡ ((p == a && same_edge (t, l) (b, k)) || edge st a b k)
  edge-add_successor a b k =
      let at_once =
        ap (has_edge (b, k)) (next-add_successor a)
        ∙ chosen (has_edge (b, k)) (p == a) (insert_edge (t, l) (st p).next) (st a).next in
      let same : p ≡ a → edge st p b k ≡ edge st a b k = λ e. ap (λ z. edge st z b k) e in
      ground (arith, at_once, same, has_edge-insert_edge t l b k (st p).next, ==_iff p a)

  pub leads-add_successor :
      (a b : ℕ) → leads (add_successor p (t, l) st).1 a b ≡ ((p == a && t == b) || leads st a b)
  leads-add_successor a b =
      let at_once =
        ap (has_target b) (next-add_successor a)
        ∙ chosen (has_target b) (p == a) (insert_edge (t, l) (st p).next) (st a).next in
      let same : p ≡ a → leads st p b ≡ leads st a b = λ e. ap (λ z. leads st z b) e in
      ground (arith, at_once, same, has_target-insert_edge t l b (st p).next, ==_iff p a)

  pub comes-add_successor :
      (b a : ℕ) → comes (add_successor p (t, l) st).1 b a ≡ ((p == a && t == b) || comes st b a)
  unfolding add_successor
  comes-add_successor b a =
      let s = set_next p (insert_edge (t, l) (st p).next) st in
      let at_once =
        ap (elem a) (prev-set_prev t b (insert p (s t).prev) s)
        ∙ chosen (elem a) (t == b) (insert p (s t).prev) (s b).prev in
      let old_t : elem a (s t).prev ≡ comes st t a =
        ap (elem a) (prev-set_next p t (insert_edge (t, l) (st p).next) st) in
      let old_b : elem a (s b).prev ≡ comes st b a =
        ap (elem a) (prev-set_next p b (insert_edge (t, l) (st p).next) st) in
      let same : t ≡ b → comes st t a ≡ comes st b a = λ e. ap (λ z. comes st z a) e in
      ground (arith, at_once, old_t, old_b, same, elem-insert p a (s t).prev, ==_iff t b)

-- The new edges: the label to each successor but the block itself.
