-- ===== src/Slicer/Count.antt =====
-- How many blocks slicing takes out of a graph, and whether its closing assertion holds.
use cape_implementation.Prelude.{
  ℕ, ◌+◌, ◌≡◌, ◌⊎◌, subst, refl, sym, ap, ◌∙◌, Bool-cases, inl, inr, Bool, true, false, ◌&&◌, not,
  List, [], ◌∷◌, arith, ◌==◌, ==_iff, if◌then◌else◌, elem, length, suc, ◌<◌, ◌≤◌,
}
use cape_implementation.BasicBlock.{Store, erase_block}
use cape_implementation.BasicBlock.Edges.{elem-erase_block}
use cape_implementation.Slicer.{SlicedGraph, remove, blocks_to_remove, remove_each, count_block}

-- The blocks that the backend lets go.
abbrev pub taken : (ℕ → Bool) → List ℕ → List ℕ
taken remove_block [] = []
taken remove_block (b ∷ bs) =
    if remove_block b then b ∷ taken remove_block bs else taken remove_block bs

abbrev pub distinct : List ℕ → Bool
distinct [] = true
distinct (x ∷ xs) = not (elem x xs) && distinct xs

pub elem-blocks_to_remove :
    (sl_id b : ℕ) (st : Store) (bs : List ℕ)
    → elem b (blocks_to_remove sl_id st bs) ≡ (not ((st b).slice == sl_id) && elem b bs)
unfolding blocks_to_remove
elem-blocks_to_remove sl_id b st [] = ground arith
elem-blocks_to_remove sl_id b st (x ∷ bs) =
    let same : x ≡ b → (st x).slice ≡ (st b).slice = λ e. ap (λ z. (st z).slice) e in
    ground (arith, elem-blocks_to_remove sl_id b st bs, same, ==_iff x b)

pub length-blocks_to_remove :
    (sl_id : ℕ) (st : Store) (bs : List ℕ) → length (blocks_to_remove sl_id st bs) ≤ length bs
unfolding blocks_to_remove
length-blocks_to_remove sl_id st [] = omega arith
length-blocks_to_remove sl_id st (b ∷ bs) = elim (Bool-cases ((st b).slice == sl_id)) [
  | inl sliced ↦ rw sliced (omega (arith, length-blocks_to_remove sl_id st bs))
  | inr without ↦ rw without (omega (arith, length-blocks_to_remove sl_id st bs))
]

erase_block_absent : (x : ℕ) (bs : List ℕ) → elem x bs ≡ false → erase_block x bs ≡ bs
unfolding erase_block
erase_block_absent x [] h = refl
erase_block_absent x (y ∷ ys) h = ground (arith, erase_block_absent x ys, ==_iff y x, ==_iff x y)

length-erase_block :
    (x : ℕ) (bs : List ℕ)
    → distinct bs ≡ true
    → elem x bs ≡ true
    → suc (length (erase_block x bs)) ≡ length bs
unfolding erase_block
length-erase_block x [] u h = absurd (ground arith)
length-erase_block x (y ∷ ys) u h = elim (Bool-cases (y == x)) [
  | inl same ↦
      let absent : elem x ys ≡ false =
        ap (λ z. elem z ys) (sym ((==_iff y x).0 same)) ∙ ground (arith, u) in
      rw (erase_block, same) (ap (λ l. suc (length l)) (erase_block_absent x ys absent))
  | inr other ↦
      let rest = length-erase_block x ys (ground (arith, u)) (ground (arith, h)) in
      rw (erase_block, other) (ap suc rest)
]

distinct-erase_block :
    (x : ℕ) (bs : List ℕ) → distinct bs ≡ true → distinct (erase_block x bs) ≡ true
unfolding erase_block
distinct-erase_block x [] u = refl
distinct-erase_block x (y ∷ ys) u =
    ground (arith, distinct-erase_block x ys, elem-erase_block x y ys, u)

pub distinct-blocks_to_remove :
    (sl_id : ℕ) (st : Store) (bs : List ℕ)
    → distinct bs ≡ true
    → distinct (blocks_to_remove sl_id st bs) ≡ true
unfolding blocks_to_remove
distinct-blocks_to_remove sl_id st [] u = refl
distinct-blocks_to_remove sl_id st (b ∷ bs) u =
    ground (arith, distinct-blocks_to_remove sl_id st bs, elem-blocks_to_remove sl_id b st bs, u)

module _ (remove_block : ℕ → Bool) where
  pub elem-taken :
      (b : ℕ) (bs : List ℕ) → elem b (taken remove_block bs) ≡ (remove_block b && elem b bs)
  elem-taken b [] = ground arith
  elem-taken b (x ∷ bs) =
      let same : x ≡ b → remove_block x ≡ remove_block b = λ e. ap remove_block e in
      ground (arith, elem-taken b bs, same, ==_iff x b)

  -- The blocks that are left and those that were let go are as many as there were.
  pub length-remove_each :
      (bs : List ℕ) (g : SlicedGraph)
      → distinct g.blocks ≡ true
      → distinct bs ≡ true
      → ((b : ℕ) → elem b bs ≡ true → elem b g.blocks ≡ true)
      → length (remove_each remove_block bs g).blocks + length (taken remove_block bs)
        ≡ length g.blocks
  unfolding remove_each remove count_block
  length-remove_each [] g u v inside = omega arith
  length-remove_each (x ∷ bs) g u v inside = elim (Bool-cases (remove_block x)) [
    | inr stays ↦
        let step : remove_each remove_block (x ∷ bs) g
            ≡ remove_each remove_block bs (count_block x g) =
          rw (remove_each, stays) refl in
        rw (step, stays)
          (length-remove_each bs (count_block x g) u (ground (arith, v))
            (λ b m. inside b (ground (arith, m))))
    | inl goes ↦
        let rest =
          length-remove_each bs (remove x (count_block x g)) (distinct-erase_block x g.blocks u)
            (ground (arith, v))
            (λ b m.
              let same : x ≡ b → elem x bs ≡ elem b bs = λ e. ap (λ z. elem z bs) e in
              ground (arith, elem-erase_block x b g.blocks, inside b, same, ==_iff x b, m, v)) in
        let step : remove_each remove_block (x ∷ bs) g
            ≡ remove_each remove_block bs (remove x (count_block x g)) =
          rw (remove_each, goes) refl in
        let erased : suc (length (remove x (count_block x g)).blocks) ≡ length g.blocks =
          length-erase_block x g.blocks u (inside x (ground (arith, ==_iff x x))) in
        rw (step, goes) (omega (arith, rest, erased))
  ]

  -- Either all blocks are let go, or fewer than there are, since one is kept.
  pub taken_cases :
      (bs : List ℕ)
      → ((length (taken remove_block bs) ≡ length bs)
          × ((b : ℕ) → elem b bs ≡ true → remove_block b ≡ true))
        ⊎ ((length (taken remove_block bs) < length bs)
            × ((b : ℕ) × (elem b bs ≡ true) × (remove_block b ≡ false)))
  taken_cases [] = inl (refl, λ b m. absurd (ground arith))
  taken_cases (x ∷ bs) = elim (Bool-cases (remove_block x)) [
    | inr stays ↦ elim (taken_cases bs) [
      | inl (same, all) ↦
          inr (rw stays (omega (arith, same)), (x, ground (arith, ==_iff x x), stays))
      | inr (fewer, kept) ↦
          inr (rw stays (omega (arith, fewer)), (x, ground (arith, ==_iff x x), stays))
    ]
    | inl goes ↦ elim (taken_cases bs) [
      | inl (same, all) ↦ inl (
        rw goes (ap suc same),
        λ b m. elim (Bool-cases (x == b)) [
          | inl here_it ↦ subst (λ z. remove_block z ≡ true) ((==_iff x b).0 here_it) goes
          | inr later ↦ all b (ground (arith, m))
        ],
      )
      | inr (fewer, (b, m, stays)) ↦
          inr (rw goes (omega (arith, fewer)), (b, ground (arith, m), stays))
    ]
  ]
