-- ===== src/BasicBlock/Joined.antt =====
-- The predecessors taken apart, and the other updates of `isolate`.
use cape_implementation.Prelude.{
  ℕ, ◌≡◌, subst, refl, ap, ◌∙◌, Bool-cases, inl, inr, ◌||◌, ◌&&◌, not, List, [], ◌∷◌, arith, ◌==◌,
  ==_iff, elem,
}
use cape_implementation.NodesWalk.Ids.{update}
use cape_implementation.BasicBlock.{
  BlockEdge, Store, erase_block, set_prev, reconnect, reconnect_all, forget_successors,
  forget_control, forget_rev_control,
}
use cape_implementation.BasicBlock.Edges.{
  has_target, edge, leads, comes, has_edge-has_target, has_target-edge, prev-set_prev,
  next-set_prev, elem-erase_block,
}
use cape_implementation.BasicBlock.Added.{chosen}
use cape_implementation.BasicBlock.Cut.{edge-reconnect, comes-reconnect, leads-reconnect}

-- The edges and the predecessors agree.
abbrev pub Symmetric : Store → Type 0
Symmetric st = (a b : ℕ) → comes st b a ≡ leads st a b

leads-reconnect_self :
    (x p : ℕ) (st : Store) (a : ℕ) → leads (reconnect x p st) a x ≡ (not (p == a) && leads st a x)
leads-reconnect_self x p st a = elim (Bool-cases (leads (reconnect x p st) a x)) [
  | inl there ↦
      let (k, e) = has_target-edge x (reconnect x p st a).next there in
      ground (
        arith,
        there,
        e,
        edge-reconnect x p st a x k,
        has_edge-has_target x k (st a).next,
        ==_iff x x,
      )
  | inr away ↦ elim (Bool-cases (leads st a x)) [
    | inl before ↦
        let (k, e) = has_target-edge x (st a).next before in
        ground (
          arith,
          away,
          before,
          e,
          edge-reconnect x p st a x k,
          has_edge-has_target x k (reconnect x p st a).next,
          ==_iff x x,
        )
    | inr never ↦ ground (arith, away, never)
  ]
]

-- The edges after some predecessors were taken apart.
pub record JoinedEdges (x : ℕ) (ps : List ℕ) (st after : Store) : Type 0 where
  pub joined_edge :
      (a b k : ℕ)
      → edge after a b k ≡ (
          (elem a ps && (not (x == b) && (edge st a x k && leads st x b)))
          || (not (elem a ps && x == b) && edge st a b k))
  pub joined_leads :
      (a b : ℕ)
      → leads after a b ≡ (
          (elem a ps && (not (x == b) && (leads st a x && leads st x b)))
          || (not (elem a ps && x == b) && leads st a b))
  pub joined_comes :
      (b a : ℕ)
      → comes after b a
        ≡ ((elem a ps && (not (x == b) && (leads st a x && leads st x b))) || comes st b a)

-- One predecessor, for edges to any block.
leads_step :
    (x p : ℕ) (st : Store) (a b : ℕ)
    → leads (reconnect x p st) a b ≡ (
        (p == a && (not (x == b) && (leads st a x && leads st x b)))
        || (not (p == a && x == b) && leads st a b))
leads_step x p st a b =
    let same : p ≡ a → leads st p x ≡ leads st a x = λ e. ap (λ z. leads st z x) e in
    elim (Bool-cases (x == b)) [
      | inl here ↦
          let at_b : x ≡ b = (==_iff x b).0 here in
          let there : leads (reconnect x p st) a b ≡ (not (p == a) && leads st a b) =
            subst (λ z. leads (reconnect x p st) a z ≡ (not (p == a) && leads st a z)) at_b
              (leads-reconnect_self x p st a) in
          ground (arith, here, there)
      | inr other ↦ ground (arith, other, leads-reconnect x p st a b other, same, ==_iff p a)
    ]

pub reconnect_all-JoinedEdges :
    (x : ℕ) (ps : List ℕ) (st : Store) → JoinedEdges x ps st (reconnect_all x ps st)
unfolding reconnect_all
reconnect_all-JoinedEdges x [] st = record {
  joined_edge = λ a b k. ground arith;
  joined_leads = λ a b. ground arith;
  joined_comes = λ b a. ground arith;
}
reconnect_all-JoinedEdges x (p ∷ ps) st =
    let next = reconnect x p st in
    let rest = reconnect_all-JoinedEdges x ps next in
    record {
      joined_edge = λ a b k.
          let same : p ≡ a → edge st p x k ≡ edge st a x k = λ e. ap (λ z. edge st z x k) e in
          ground (
            arith,
            rest.joined_edge a b k,
            edge-reconnect x p st a b k,
            edge-reconnect x p st a x k,
            leads_step x p st x b,
            same,
            ==_iff p a,
            ==_iff x x,
          );
      joined_leads = λ a b. ground (
        arith,
        rest.joined_leads a b,
        leads_step x p st a b,
        leads_step x p st a x,
        leads_step x p st x b,
        ==_iff x x,
      );
      joined_comes = λ b a.
          let same : p ≡ a → leads st p x ≡ leads st a x = λ e. ap (λ z. leads st z x) e in
          ground (
            arith,
            rest.joined_comes b a,
            comes-reconnect x p st b a,
            leads_step x p st a x,
            leads_step x p st x b,
            same,
            ==_iff p a,
            ==_iff x x,
          );
    }

pub next-forget_successors :
    (x : ℕ) (es : List BlockEdge) (st : Store) (y : ℕ)
    → (forget_successors x es st y).next ≡ (st y).next
unfolding forget_successors
next-forget_successors x [] st y = refl
next-forget_successors x ((t, l) ∷ es) st y =
    next-forget_successors x es (set_prev t (erase_block x (st t).prev) st) y
    ∙ next-set_prev t y (erase_block x (st t).prev) st

pub comes-forget_successors :
    (x : ℕ) (es : List BlockEdge) (st : Store) (b a : ℕ)
    → comes (forget_successors x es st) b a ≡ (not (x == a && has_target b es) && comes st b a)
unfolding forget_successors
comes-forget_successors x [] st b a = ground arith
comes-forget_successors x ((t, l) ∷ es) st b a =
    let s = set_prev t (erase_block x (st t).prev) st in
    let at_once =
      ap (elem a) (prev-set_prev t b (erase_block x (st t).prev) st)
      ∙ chosen (elem a) (t == b) (erase_block x (st t).prev) (st b).prev in
    let same : t ≡ b → comes st t a ≡ comes st b a = λ e. ap (λ z. comes st z a) e in
    ground (
      arith,
      comes-forget_successors x es s b a,
      at_once,
      elem-erase_block x a (st t).prev,
      same,
      ==_iff t b,
    )

-- The updates of the control dependences leave the edges alone.
pub same_flow :
    (st : Store) (b y : ℕ) (c r : List ℕ)
    → (update st b (record (st b) { control = c; rev_control = r }) y).next ≡ (st y).next
      × (update st b (record (st b) { control = c; rev_control = r }) y).prev ≡ (st y).prev
same_flow st b y c r = elim (Bool-cases (b == y)) [
  | inl e ↦
      rw e (ap (λ z. (st z).next) ((==_iff b y).0 e), ap (λ z. (st z).prev) ((==_iff b y).0 e))
  | inr e ↦ rw e (refl, refl)
]

abbrev pub SameFlow : Store → Store → Type 0
SameFlow st after = (y : ℕ) → ((after y).next ≡ (st y).next) × ((after y).prev ≡ (st y).prev)

pub forget_control-SameFlow :
    (x : ℕ) (bs : List ℕ) (st : Store) → SameFlow st (forget_control x bs st)
unfolding forget_control
forget_control-SameFlow x [] st y = (refl, refl)
forget_control-SameFlow x (b ∷ bs) st y = elim (Bool-cases (b == x)) [
  | inl self ↦ rw (forget_control, self) (forget_control-SameFlow x bs st y)
  | inr other ↦
      let step = same_flow st b y (st b).control (erase_block x (st b).rev_control) in
      let s = update st b (record (st b) { rev_control = erase_block x (st b).rev_control }) in
      let rest = forget_control-SameFlow x bs s y in
      rw (forget_control, other) (rest.0 ∙ step.0, rest.1 ∙ step.1)
]

pub forget_rev_control-SameFlow :
    (x : ℕ) (bs : List ℕ) (st : Store) → SameFlow st (forget_rev_control x bs st)
unfolding forget_rev_control
forget_rev_control-SameFlow x [] st y = (refl, refl)
forget_rev_control-SameFlow x (b ∷ bs) st y = elim (Bool-cases (b == x)) [
  | inl self ↦ rw (forget_rev_control, self) (forget_rev_control-SameFlow x bs st y)
  | inr other ↦
      let step = same_flow st b y (erase_block x (st b).control) (st b).rev_control in
      let s = update st b (record (st b) { control = erase_block x (st b).control }) in
      let rest = forget_rev_control-SameFlow x bs s y in
      rw (forget_rev_control, other) (rest.0 ∙ step.0, rest.1 ∙ step.1)
]
