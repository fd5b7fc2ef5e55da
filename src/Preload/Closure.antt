-- ===== src/Preload/Closure.antt =====
-- The set of functions that `preloadBB` collects.
use cape_implementation.Prelude.{
  ℕ, zero, suc, ◌≡◌, ◌↔◌, ◌⊎◌, inl, inr, refl, sym, ap, ◌∙◌, subst, Bool-cases, Option-cases, true,
  false, ◌||◌, Option, some, List, [], ◌∷◌, arith, ◌==◌, ==_iff, elem,
}
use cape_implementation.Preload.{Bitcode, Names, emit, each, preload_call, preload_bb}

module _ (code : Bitcode) where
  -- The functions that can be called from some roots, by name and without the debugging ones.
  pub data Called (roots : ℕ → Type 0) : ℕ → Type 0 where
    root : {f : ℕ} → roots f → code.is_debug f ≡ false → Called roots f
    callee :
        {f g : ℕ} (b : ℕ)
        → Called roots f
        → elem b (code.blocks f) ≡ true
        → elem g (code.calls b) ≡ true
        → code.is_debug g ≡ false
        → Called roots g

  Called-imp :
      {R S : ℕ → Type 0}
      → ((f : ℕ) → R f → code.is_debug f ≡ false → Called S f)
      → {f : ℕ} → Called R f
      → Called S f
  Called-imp h (root {f} r d) = h f r d
  Called-imp h (callee b c m n d) = callee b (Called-imp h c) m n d

  -- What the part of `preloadBB` that goes through `roots` has done between `s` and `t`.
  record Loads (roots : ℕ → Type 0) (s t : Names) : Type 0 where
    kept : (f : ℕ) → elem f s.funcs ≡ true → elem f t.funcs ≡ true
    rooted : (f : ℕ) → roots f → code.is_debug f ≡ false → elem f t.funcs ≡ true
    closed :
        (f b g : ℕ)
        → elem f t.funcs ≡ true
        → elem f s.funcs ≡ false
        → elem b (code.blocks f) ≡ true
        → elem g (code.calls b) ≡ true
        → code.is_debug g ≡ false
        → elem g t.funcs ≡ true
    called : (f : ℕ) → elem f t.funcs ≡ true → (elem f s.funcs ≡ true) ⊎ Called roots f

  -- The roots of a loop over `xs` whose round at `x` goes through `R x`.
  abbrev Some : (ℕ → ℕ → Type 0) → List ℕ → ℕ → Type 0
  Some R xs f = (x : ℕ) × (elem x xs ≡ true) × R x f

  each-Loads :
      (visit : ℕ → Names → Option Names) (R : ℕ → ℕ → Type 0)
      → ((x : ℕ) (s t : Names) → visit x s ≡ some t → Loads (R x) s t)
      → (xs : List ℕ) (s t : Names) → each visit xs s ≡ some t
      → Loads (Some R xs) s t
  unfolding each
  each-Loads visit R h [] s t e = record {
    kept = λ f p. ground arith;
    rooted = λ f r d. absurd (ground (arith, r.1));
    closed = λ f b g p q m n d. absurd (ground arith);
    called = λ f p. inl (ground arith);
  }
  each-Loads visit R h (x ∷ xs) s t e = elim (Option-cases (visit x s)) [
    | inl failed ↦ absurd (ground arith)
    | inr (u, q) ↦
        let first = h x s u q in
        let rest = each-Loads visit R h xs u t (rw (q, each) at e) in
        record {
          kept = λ f p. rest.kept f (first.kept f p);
          rooted = λ f r d. elim (Bool-cases (x == r.0)) [
            | inl same ↦
                rest.kept f
                  (first.rooted f (subst (λ y. R y f) (sym (ground (arith, ==_iff x r.0))) r.2) d)
            | inr other ↦ rest.rooted f (r.0, ground (arith, r.1), r.2) d
          ];
          closed = λ f b g p q m n d. elim (Bool-cases (elem f u.funcs)) [
            | inl early ↦ rest.kept g (first.closed f b g early q m n d)
            | inr late ↦ rest.closed f b g p late m n d
          ];
          called = λ f p. elim (rest.called f p) [
            | inl early ↦ elim (first.called f early) [
              | inl old ↦ inl old
              | inr c ↦ inr (Called-imp (λ g r d. root (x, ground arith, r) d) c)
            ]
            | inr c ↦ inr (Called-imp (λ g r d. root (r.0, ground (arith, r.1), r.2) d) c)
          ];
        }
  ]

  abbrev At : ℕ → ℕ → Type 0
  At f g = f ≡ g

  abbrev InBlock : ℕ → ℕ → Type 0
  InBlock b g = elem g (code.calls b) ≡ true

  own_name : (f g : ℕ) → f ≡ g → code.is_debug f ≡ false → Called (At f) g
  own_name f g e d = root e (sym (ap code.is_debug e) ∙ d)

  module _ (inner : ℕ → Names → Option Names)
      (h : (b : ℕ) (s t : Names) → inner b s ≡ some t → Loads (InBlock b) s t) where
    preload_call-Loads :
        (f : ℕ) (s t : Names) → preload_call code inner f s ≡ some t → Loads (At f) s t
    unfolding preload_call emit
    preload_call-Loads f s t e = elim (Bool-cases (code.is_debug f || elem f s.funcs)) [
      | inl skip ↦ record {
        kept = λ g p. ground arith;
        rooted = λ g r d. subst (λ x. elem x t.funcs ≡ true) r (ground (arith, ap code.is_debug r));
        closed = λ g b k p q m n d. absurd (ground arith);
        called = λ g p. inl (ground arith);
      }
      | inr new ↦
          let i = each-Loads inner InBlock h (code.blocks f) (emit f s) t (ground arith) in
          let own : elem f t.funcs ≡ true = i.kept f (ground arith) in
          record {
            kept = λ g p. i.kept g (ground arith);
            rooted = λ g r d. subst (λ x. elem x t.funcs ≡ true) r own;
            closed = λ g b k p q m n d. elim (Bool-cases (f == g)) [
              | inl same ↦
                  let same_function : f ≡ g = ground (arith, ==_iff f g) in
                  i.rooted k
                    (b, subst (λ x. elem b (code.blocks x) ≡ true) (sym same_function) m, n) d
              | inr other ↦ i.closed g b k p (ground arith) m n d
            ];
            called = λ g p. elim (i.called g p) [
              | inl early ↦ elim (Bool-cases (f == g)) [
                | inl same ↦ inr (own_name f g (ground (arith, ==_iff f g)) (ground arith))
                | inr other ↦ inl (ground arith)
              ]
              | inr c ↦
                  inr (Called-imp (λ k r d. callee r.0 (root refl (ground arith)) r.1 r.2 d) c)
            ];
          }
    ]

  preload_bb-Loads :
      (fuel b : ℕ) (s t : Names) → preload_bb code fuel b s ≡ some t → Loads (InBlock b) s t
  unfolding preload_bb
  preload_bb-Loads zero b s t e = absurd (ground arith)
  preload_bb-Loads (suc fuel) b s t e =
      let i =
        each-Loads (preload_call code (preload_bb code fuel)) At
          (preload_call-Loads (preload_bb code fuel) (preload_bb-Loads fuel)) (code.calls b) s t
          e in
      record {
        kept = i.kept;
        rooted = λ f r d. i.rooted f (f, r, refl) d;
        closed = i.closed;
        called = λ f p. elim (i.called f p) [
          | inl old ↦ inl old
          | inr c ↦
              inr
                (Called-imp (λ k r d. root (subst (λ x. elem x (code.calls b) ≡ true) r.2 r.1) d) c)
        ];
      }

  -- From an empty set, `preloadBB` collects exactly the functions that can be called from the block,
  -- through any number of calls by name, the debugging functions left out.
  pub preload_bb_correct :
      (fuel b : ℕ) (s t : Names)
      → preload_bb code fuel b s ≡ some t
      → s.funcs ≡ []
      → (f : ℕ) → (elem f t.funcs ≡ true) ↔ Called (λ g. elem g (code.calls b) ≡ true) f
  preload_bb_correct fuel b s t e empty f =
      let i = preload_bb-Loads fuel b s t e in
      (
        λ p. elim (i.called f p) [
          | inl old ↦ absurd (ground (arith, ap (elem f) empty))
          | inr c ↦ c
        ],
        λ c. collected i c,
      )
    where
      collected : Loads (InBlock b) s t → {f : ℕ} → Called (InBlock b) f → elem f t.funcs ≡ true
      collected i (root {f} r d) = i.rooted f r d
      collected i (callee {f} {g} c k m n d) =
          i.closed f c g (collected i k) (ap (elem f) empty) m n d
