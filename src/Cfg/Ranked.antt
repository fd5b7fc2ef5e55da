-- ===== src/Cfg/Ranked.antt =====
-- The search for the loop of a branch on a graph whose immediate dominators form a forest.
use cape_implementation.Prelude.{
  ℕ, zero, suc, ◌+◌, ◌<◌, ◌≡◌, ◌≢◌, inl, inr, refl, sym, ap, subst, ◌∙◌, ◌⊎◌, ==_iff, Bool,
  Bool-cases, Option-cases, true, false, Option, none, some, List, [], ◌∷◌, arith, ◌==◌,
  if◌then◌else◌, elem,
}
use cape_implementation.Worklist.Ends.{Below}
use cape_implementation.Cfg.{
  Cfg, on_idom_chain, back_edge, loop_of, br_loop_from, get_br_loop_blocks,
}
use cape_implementation.Cfg.Loop.{
  collect_loop_blocks_ends, Up, one, more, IsBrLoop, get_br_loop_blocks_sound,
}
use cape_implementation.Worklist.Reach.{here}

-- A rank below `n` of the blocks that every step to an immediate dominator lowers.
pub record IsForest (g : Cfg) (n : ℕ) (rank : ℕ → ℕ) : Type 0 where
  pub bound : (c : ℕ) → rank c < n
  pub falls : (c d : ℕ) → g.idom c ≡ some d → rank d < rank c

module _ (g : Cfg) where
  -- A loop that is closed by an edge between two of its blocks, the header being another block than the
  -- given one and one of its dominators.
  pub record IsLoopAround (br h : ℕ) (blks : List ℕ) : Type 0 where
    pub dominator : Up g br h
    pub differs : br ≢ h
    pub source : ℕ
    pub dominated : Up g source h
    pub edge : elem source (g.predecessors h) ≡ true
    pub source_differs : source ≢ h
    pub source_inside : elem source blks ≡ true
    pub inside : elem br blks ≡ true

  -- A block with an edge to itself, the only one from a block that it dominates or is.
  pub record IsSelfLoop (b : ℕ) : Type 0 where
    pub itself : elem b (g.predecessors b) ≡ true
    pub only : (q : ℕ) → elem q (g.predecessors b) ≡ true → Up g q b → q ≡ b

module _ (g : Cfg) (n : ℕ) (rank : ℕ → ℕ) (forest : IsForest g n rank) where
  pub Up-falls : {c d : ℕ} → Up g c d → rank d < rank c
  Up-falls (one {c} {d} p) = forest.falls c d p
  Up-falls (more {c} {d} {e} p u) = omega (arith, forest.falls c d p, Up-falls u)

  on_idom_chain_ends :
      (fuel blk cur : ℕ) → rank cur < fuel → (b : Bool) × (on_idom_chain g fuel blk cur ≡ some b)
  unfolding on_idom_chain
  on_idom_chain_ends zero blk cur h = absurd (omega arith)
  on_idom_chain_ends (suc fuel) blk cur h = elim (Option-cases (g.idom cur)) [
    | inl root ↦ (false, ground arith)
    | inr (d, up) ↦ elim (Bool-cases (d == blk)) [
      | inl same ↦ (true, ground arith)
      | inr other ↦
          let (b, e) = on_idom_chain_ends fuel blk d (omega (arith, forest.falls cur d up)) in
          (b, ground arith)
    ]
  ]

  back_edge_ends :
      (blk : ℕ) (preds : List ℕ) → (o : Option ℕ) × (back_edge g (n + 1) blk preds ≡ some o)
  unfolding back_edge
  back_edge_ends blk [] = (none, refl)
  back_edge_ends blk (pred ∷ preds) =
      let (b, e) = on_idom_chain_ends (n + 1) blk pred (omega (arith, forest.bound pred)) in
      let (o, f) = back_edge_ends blk preds in
      elim (Bool-cases b) [
        | inl dominates ↦ (some pred, ground arith)
        | inr other ↦ (o, ground arith)
      ]

  module _ (finite : (b : ℕ) → Below n (g.predecessors b)) where
    loop_of_ends :
        (br header pred : ℕ)
        → (o : Option (ℕ × List ℕ)) × (loop_of g (n + 1) br header pred ≡ some o)
    unfolding loop_of
    loop_of_ends br header pred =
        let (blks, f) = collect_loop_blocks_ends g n header pred finite in
        (if elem br blks then some (header, blks) else none, rw (f, loop_of) refl)

    br_loop_from_ends :
        (rounds br blk : ℕ)
        → rank blk < rounds
        → (o : Option (ℕ × List ℕ)) × (br_loop_from g rounds (n + 1) br blk ≡ some o)
    unfolding br_loop_from
    br_loop_from_ends zero br blk h = absurd (omega arith)
    br_loop_from_ends (suc rounds) br blk h =
        let (edge, e) = back_edge_ends blk (g.predecessors blk) in
        elim (Option-cases edge) [
          | inl no_edge ↦ elim (Option-cases (g.idom blk)) [
            | inl root ↦ (none, ground arith)
            | inr (d, up) ↦
                let (o, f) = br_loop_from_ends rounds br d (omega (arith, forest.falls blk d up)) in
                (o, ground arith)
          ]
          | inr (pred, p) ↦ let (o, f) = loop_of_ends br blk pred in (o, ground arith)
        ]

    -- On a graph of `n` blocks whose immediate dominators form a forest, `getBrLoopBlocks` returns.
    pub get_br_loop_blocks_ends :
        (br : ℕ) → (o : Option (ℕ × List ℕ)) × (get_br_loop_blocks g (n + 1) br ≡ some o)
    unfolding get_br_loop_blocks
    get_br_loop_blocks_ends br = br_loop_from_ends (n + 1) br br (omega (arith, forest.bound br))

  loop_source_differs :
      {br h : ℕ} {blks : List ℕ} (loop : IsBrLoop g br h blks)
      → (loop.pred ≢ h) × (elem loop.pred blks ≡ true)
  loop_source_differs {br} {h} {blks} loop = (
    λ s. omega (arith, Up-falls loop.dominated, ap rank s),
    (loop.members loop.pred).1 (inr (here (ground (arith, ==_iff loop.pred loop.pred)))),
  )

  loop_around :
      (fuel b h : ℕ) (blks : List ℕ)
      → IsSelfLoop g b
      → get_br_loop_blocks g fuel b ≡ some (some (h, blks))
      → IsLoopAround g b h blks
  loop_around fuel b h blks single e =
      let loop = get_br_loop_blocks_sound g fuel b h blks e in
      let (differs, source_inside) = loop_source_differs loop in
      elim loop.above [
        | inl same ↦
            let edge = subst (λ x. elem loop.pred (g.predecessors x) ≡ true) same loop.edge in
            let up = subst (λ x. Up g loop.pred x) same loop.dominated in
            absurd (differs (single.only loop.pred edge up ∙ sym same))
        | inr up ↦ record {
          dominator = up;
          differs = λ s. omega (arith, Up-falls up, ap rank s);
          source = loop.pred;
          dominated = loop.dominated;
          edge = loop.edge;
          source_differs = differs;
          source_inside = source_inside;
          inside = loop.inside;
        }
      ]

  -- On a finite graph whose immediate dominators form a forest, for the branch of a block whose only back
  -- edge comes from itself, `getBrLoopBlocks` returns without the loop of that block: it finds no loop, or
  -- one whose header is another block, a dominator of this one, closed by an edge to the header from
  -- another block of the loop.
  pub br_loop_misses_self_loop :
      (b : ℕ)
      → IsSelfLoop g b
      → ((c : ℕ) → Below n (g.predecessors c))
      → (get_br_loop_blocks g (n + 1) b ≡ some none)
        ⊎ ((h : ℕ) × (blks : List ℕ) × (get_br_loop_blocks g (n + 1) b ≡ some (some (h, blks)))
            × IsLoopAround g b h blks)
  br_loop_misses_self_loop b single finite =
      let (o, e) = get_br_loop_blocks_ends finite b in
      elim (Option-cases o) [
        | inl no_loop ↦ inl (e ∙ ap some no_loop)
        | inr ((h, blks), f) ↦
            let found : get_br_loop_blocks g (n + 1) b ≡ some (some (h, blks)) = e ∙ ap some f in
            inr (h, blks, found, loop_around (n + 1) b h blks single found)
      ]
