-- ===== src/Slicer/Path.antt =====
-- What taking one block out, as `isolate` does, means for the paths between the other blocks.
use cape_implementation.Prelude.{
  ℕ, ◌≡◌, ◌⊎◌, refl, sym, ap, ◌∙◌, Bool-cases, inl, inr, true, false, List, ◌∷◌, arith, ◌==◌,
  ==_iff, elem,
}
use cape_implementation.BasicBlock.{Store, isolate}
use cape_implementation.BasicBlock.Edges.{leads}
use cape_implementation.BasicBlock.Joined.{Symmetric}
use cape_implementation.BasicBlock.Isolate.{isolate_joins, isolate_no_target}

-- A path whose inner blocks are among the given ones.
pub data PathThrough (st : Store) (xs : List ℕ) : ℕ → ℕ → Type 0 where
  direct : {a b : ℕ} → leads st a b ≡ true → PathThrough st xs a b
  through :
      {a c b : ℕ}
      → leads st a c ≡ true
      → elem c xs ≡ true
      → PathThrough st xs c b
      → PathThrough st xs a b

module _ (x : ℕ) (xs : List ℕ) (st : Store) (symmetric : Symmetric st) where
  -- An edge after the isolation is a path through the block.
  pub expand_path :
      {a b : ℕ}
      → PathThrough (isolate x st) xs a b
      → (x == a) ≡ false
      → (x == b) ≡ false
      → PathThrough st (x ∷ xs) a b
  expand_path (direct {a} {b} e) p q = elim (Bool-cases (leads st a b)) [
    | inl before ↦ direct before
    | inr new ↦
        through {c = x} (ground (arith, isolate_joins x st symmetric a b p q, e, new))
          (ground (arith, ==_iff x x))
          (direct (ground (arith, isolate_joins x st symmetric a b p q, e, new)))
  ]
  expand_path (through {a} {c} {b} e i rest) p q = elim (Bool-cases (x == c)) [
    | inl same ↦ absurd (
        ground (
          arith,
          isolate_no_target x st symmetric a,
          e,
          ap (leads (isolate x st) a) ((==_iff x c).0 same),
        ))
    | inr other ↦
        let tail = expand_path rest other q in
        elim (Bool-cases (leads st a c)) [
          | inl before ↦ through {c = c} before (ground (arith, i)) tail
          | inr new ↦
              through {c = x} (ground (arith, isolate_joins x st symmetric a c p other, e, new))
                (ground (arith, ==_iff x x))
                (through {c = c} (ground (arith, isolate_joins x st symmetric a c p other, e, new))
                  (ground (arith, i)) tail)
        ]
  ]

  come_in :
      (a c m : ℕ)
      → leads st c m ≡ true
      → m ≡ x
      → (c ≡ a) ⊎ ((c ≡ x) × (leads st a x ≡ true))
      → leads st a x ≡ true
  come_in a c m e back (inl same) =
      sym (ap (leads st a) back) ∙ ap (λ z. leads st z m) (sym same) ∙ e
  come_in a c m e back (inr from_x) = from_x.1

  enter :
      (a c b : ℕ)
      → leads st c b ≡ true
      → (x == a) ≡ false
      → (x == b) ≡ false
      → (c ≡ a) ⊎ ((c ≡ x) × (leads st a x ≡ true))
      → leads (isolate x st) a b ≡ true
  enter a c b e p q (inl same) =
      ground (arith, isolate_joins x st symmetric a b p q, ap (λ z. leads st z b) same, e)
  enter a c b e p q (inr from_x) =
      ground
        (arith, isolate_joins x st symmetric a b p q, ap (λ z. leads st z b) from_x.0, from_x.1, e)

  -- A path, entered at its start or from a block with an edge to the isolated one.
  pub contract_path :
      {c b : ℕ} (a : ℕ)
      → PathThrough st (x ∷ xs) c b
      → (x == a) ≡ false
      → (x == b) ≡ false
      → (c ≡ a) ⊎ ((c ≡ x) × (leads st a x ≡ true))
      → PathThrough (isolate x st) xs a b
  contract_path a (direct {a = c} {b} e) p q entry = direct (enter a c b e p q entry)
  contract_path a (through {a = c} {c = m} {b} e i rest) p q entry = elim (Bool-cases (x == m)) [
    | inl same ↦
        let back : m ≡ x = sym ((==_iff x m).0 same) in
        contract_path a rest p q (inr (back, come_in a c m e back entry))
    | inr other ↦
        through {c = m} (enter a c m e p other entry) (ground (arith, other, i))
          (contract_path m rest other q (inl refl))
  ]
