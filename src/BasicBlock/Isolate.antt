-- ===== src/BasicBlock/Isolate.antt =====
-- `isolate` as a whole.
use cape_implementation.Prelude.{
  ℕ, ◌≡◌, ap, ◌∙◌, true, false, ◌||◌, ◌&&◌, not, [], arith, ◌==◌, ==_iff, if◌then◌else◌, elem,
}
use cape_implementation.BasicBlock.{
  has_edge, Store, set_next, set_prev, reconnect_all, forget_successors, remove_successors,
  forget_control, forget_rev_control, isolate, add_successor,
}
use cape_implementation.BasicBlock.Edges.{
  has_target, edge, leads, comes, has_edge-has_target, next-set_next, prev-set_next, prev-set_prev,
  next-set_prev,
}
use cape_implementation.BasicBlock.Added.{chosen, leads-add_successor, comes-add_successor}
use cape_implementation.BasicBlock.Joined.{
  Symmetric, reconnect_all-JoinedEdges, next-forget_successors, comes-forget_successors, SameFlow,
  same_flow, forget_control-SameFlow, forget_rev_control-SameFlow,
}

-- A new edge keeps the edges and the predecessors in agreement.
pub add_successor-Symmetric :
    (a t l : ℕ) (st : Store) → Symmetric st → Symmetric (add_successor a (t, l) st).1
add_successor-Symmetric a t l st h x y =
    ground (arith, comes-add_successor a t l st y x, leads-add_successor a t l st x y, h x y)

module _ (x : ℕ) (st : Store) where
  abbrev joined : Store
  joined = reconnect_all x (st x).prev st

  abbrev apart : Store
  apart = forget_successors x (joined x).next joined

  abbrev separated : Store
  separated = set_prev x [] (set_next x [] apart)

  isolate-SameFlow : SameFlow separated (isolate x st)
  unfolding isolate remove_successors
  isolate-SameFlow y =
      let s = forget_control x (separated x).control separated in
      let t = forget_rev_control x (s x).rev_control s in
      let first = forget_control-SameFlow x (separated x).control separated y in
      let second = forget_rev_control-SameFlow x (s x).rev_control s y in
      let third = same_flow t x y [] [] in
      (third.0 ∙ second.0 ∙ first.0, third.1 ∙ second.1 ∙ first.1)

  next-isolate : (a : ℕ) → (isolate x st a).next ≡ (if x == a then [] else (joined a).next)
  next-isolate a =
      (isolate-SameFlow a).0
      ∙ next-set_prev x a [] (set_next x [] apart)
      ∙ next-set_next x a [] apart
      ∙ ap (λ es. if x == a then [] else es) (next-forget_successors x (joined x).next joined a)

  prev-isolate : (b : ℕ) → (isolate x st b).prev ≡ (if x == b then [] else (apart b).prev)
  prev-isolate b =
      (isolate-SameFlow b).1
      ∙ prev-set_prev x b [] (set_next x [] apart)
      ∙ ap (λ ps. if x == b then [] else ps) (prev-set_next x b [] apart)

  edge-isolate : (a b k : ℕ) → edge (isolate x st) a b k ≡ (not (x == a) && edge joined a b k)
  edge-isolate a b k =
      let at_once =
        ap (has_edge (b, k)) (next-isolate a)
        ∙ chosen (has_edge (b, k)) (x == a) [] (joined a).next in
      ground (arith, at_once)

  leads-isolate : (a b : ℕ) → leads (isolate x st) a b ≡ (not (x == a) && leads joined a b)
  leads-isolate a b =
      let at_once =
        ap (has_target b) (next-isolate a) ∙ chosen (has_target b) (x == a) [] (joined a).next in
      ground (arith, at_once)

  comes-isolate :
      (b a : ℕ)
      → comes (isolate x st) b a
        ≡ (not (x == b) && (not (x == a && leads joined x b) && comes joined b a))
  comes-isolate b a =
      let at_once = ap (elem a) (prev-isolate b) ∙ chosen (elem a) (x == b) [] (apart b).prev in
      ground (arith, at_once, comes-forget_successors x (joined x).next joined b a)

  module _ (symmetric : Symmetric st) where
    -- An edge to the block is one of a predecessor.
    from_predecessor : (a k : ℕ) → edge st a x k ≡ true → elem a (st x).prev ≡ true
    from_predecessor a k e = symmetric a x ∙ has_edge-has_target x k (st a).next e

    -- In a store whose edges and predecessors agree, isolate leaves no edge from or to the block and no
    -- predecessor of it or that it is; two other blocks have an edge with a label if they had it, or if
    -- there was one with the label to the block and one from the block on; edges and predecessors agree.
    pub isolate_correct :
        ((a k : ℕ) → edge (isolate x st) a x k ≡ false)
        × ((b k : ℕ) → edge (isolate x st) x b k ≡ false)
        × ((b : ℕ) → (comes (isolate x st) b x ≡ false) × (comes (isolate x st) x b ≡ false))
        × ((a b k : ℕ)
            → (x == a) ≡ false
            → (x == b) ≡ false
            → edge (isolate x st) a b k ≡ (edge st a b k || (edge st a x k && leads st x b)))
        × Symmetric (isolate x st)
    isolate_correct =
        let j = reconnect_all-JoinedEdges x (st x).prev st in
        (
          λ a k.
              ground
                (arith, edge-isolate a x k, j.joined_edge a x k, from_predecessor a k, ==_iff x x),
          λ b k. ground (arith, edge-isolate x b k, ==_iff x x),
          λ b. (
            ground (
              arith,
              comes-isolate b x,
              j.joined_comes b x,
              j.joined_leads x b,
              symmetric x b,
              ==_iff x x,
              ==_iff x b,
            ),
            ground (arith, comes-isolate x b, ==_iff x x),
          ),
          λ a b k p q.
              ground (arith, edge-isolate a b k, j.joined_edge a b k, from_predecessor a k, p, q),
          λ a b. ground (
            arith,
            comes-isolate b a,
            leads-isolate a b,
            j.joined_comes b a,
            j.joined_leads a b,
            symmetric a b,
            symmetric a x,
            ==_iff x a,
            ==_iff x b,
          ),
        )

    -- The edges between two other blocks, without their labels.
    pub isolate_joins :
        (a b : ℕ)
        → (x == a) ≡ false
        → (x == b) ≡ false
        → leads (isolate x st) a b ≡ (leads st a b || (leads st a x && leads st x b))
    isolate_joins a b p q =
        let j = reconnect_all-JoinedEdges x (st x).prev st in
        ground (arith, leads-isolate a b, j.joined_leads a b, symmetric a x, p, q)

    pub isolate_no_target : (a : ℕ) → leads (isolate x st) a x ≡ false
    isolate_no_target a =
        let j = reconnect_all-JoinedEdges x (st x).prev st in
        ground (arith, leads-isolate a x, j.joined_leads a x, symmetric a x, ==_iff x x)
