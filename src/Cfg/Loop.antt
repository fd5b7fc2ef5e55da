-- ===== src/Cfg/Loop.antt =====
-- The blocks that are taken for the loop of a branch.
use cape_implementation.Prelude.{
  ℕ, zero, suc, ◌+◌, ◌≡◌, ◌↔◌, ◌⊎◌, inl, inr, refl, sym, subst, ap, ◌∙◌, Bool, Bool-cases,
  Option-cases, true, ◌||◌, some, List, [], ◌∷◌, arith, ◌==◌, ==_iff, elem,
}
use cape_implementation.Worklist.{Search, push_front, explore}
use cape_implementation.Worklist.Reach.{Walk, here, push_front-IsPush, explore_reaches}
use cape_implementation.Worklist.Ends.{Below, outside-le, explore_ends}
use cape_implementation.Cfg.{
  Cfg, collect_loop_blocks, on_idom_chain, back_edge, loop_of, br_loop_from, get_br_loop_blocks,
}

module _ (g : Cfg) where
  -- The backward walks from the source of a back edge that do not enter the header.
  abbrev pub Backward : ℕ → ℕ → ℕ → Type 0
  Backward header hpred = Walk g.predecessors (hpred ∷ []) (hpred ∷ header ∷ [])

  start_search : ℕ → ℕ → Search
  start_search header hpred = record {
    seen = hpred ∷ header ∷ [];
    pending = hpred ∷ [];
    expanded = [];
  }

  loop_member :
      (header hpred b : ℕ) (expanded : Bool)
      → (expanded ≡ true → Backward header hpred b)
      → (hpred == b || header == b || expanded) ≡ true
      → (b ≡ header) ⊎ Backward header hpred b
  loop_member header hpred b expanded walk p = elim (Bool-cases (hpred == b)) [
    | inl source ↦ inr (here (ground arith))
    | inr other ↦ elim (Bool-cases (header == b)) [
      | inl at_header ↦ inl (ground (arith, ==_iff header b))
      | inr inner ↦ inr (walk (ground arith))
    ]
  ]

  -- Where `collectLoopBlks` ends, a block is in the set exactly when it is the header or a backward
  -- walk from the source of the edge leads to it without entering the header.
  pub collect_loop_blocks_correct :
      (fuel header hpred : ℕ) (blks : List ℕ) (b : ℕ)
      → collect_loop_blocks g fuel header hpred ≡ some blks
      → (elem b blks ≡ true) ↔ ((b ≡ header) ⊎ Backward header hpred b)
  unfolding collect_loop_blocks
  collect_loop_blocks_correct fuel header hpred blks b e =
      elim (Option-cases (
        explore push_front g.predecessors fuel
          (record { seen = hpred ∷ header ∷ []; pending = hpred ∷ []; expanded = [] }))) [
            | inl out ↦ absurd (ground arith)
            | inr (t, found) ↦
                let (walks, seen) =
                  explore_reaches g.predecessors (hpred ∷ []) (hpred ∷ header ∷ []) push_front
                    push_front-IsPush fuel t (λ a p. ground arith) found b in
                let same : blks ≡ t.seen = ground arith in
                let members : elem b blks ≡ (hpred == b || header == b || elem b t.expanded) =
                  ap (elem b) same ∙ seen ∙ ground arith in
                (
                  λ p. loop_member header hpred b (elem b t.expanded) walks.0 (sym members ∙ p),
                  λ q. elim q [
                    | inl at_header ↦ members ∙ ground (arith, ==_iff header b)
                    | inr w ↦ members ∙ ground (arith, walks.1 w)
                  ],
                )
          ]

  -- With fuel for every block `collectLoopBlks` ends.
  pub collect_loop_blocks_ends :
      (n header hpred : ℕ)
      → ((b : ℕ) → Below n (g.predecessors b))
      → (blks : List ℕ) × (collect_loop_blocks g (n + 1) header hpred ≡ some blks)
  unfolding collect_loop_blocks
  collect_loop_blocks_ends n header hpred h =
      let (t, e) =
        explore_ends push_front push_front-IsPush n g.predecessors (n + 1)
          (record { seen = hpred ∷ header ∷ []; pending = hpred ∷ []; expanded = [] }) h
          (omega (arith, outside-le n (hpred ∷ header ∷ []))) in
      (t.seen, rw (e, collect_loop_blocks))

  -- The immediate dominators on the way up from a block.
  pub data Up : ℕ → ℕ → Type 0 where
    one : {c d : ℕ} → g.idom c ≡ some d → Up c d
    more : {c d e : ℕ} → g.idom c ≡ some d → Up d e → Up c e

  on_idom_chain_sound : (fuel blk cur : ℕ) → on_idom_chain g fuel blk cur ≡ some true → Up cur blk
  unfolding on_idom_chain
  on_idom_chain_sound zero blk cur e = cc
  on_idom_chain_sound (suc fuel) blk cur e = elim (Option-cases (g.idom cur)) [
    | inl root ↦ absurd (ground arith)
    | inr (d, up) ↦ elim (Bool-cases (d == blk)) [
      | inl same ↦ one (up ∙ ground (arith, ==_iff d blk))
      | inr other ↦ more up (on_idom_chain_sound fuel blk d (ground arith))
    ]
  ]

  -- The answer of `getBrLoopBlocks` for the branch at the end of `br`: a block that dominates `br` or is
  -- it, an edge back to it from a block that it dominates, and the set of that edge with `br` in it.
  pub record IsBrLoop (br header : ℕ) (blks : List ℕ) : Type 0 where
    pub pred : ℕ
    pub edge : elem pred (g.predecessors header) ≡ true
    pub dominated : Up pred header
    pub above : (header ≡ br) ⊎ Up br header
    pub inside : elem br blks ≡ true
    pub members : (b : ℕ) → (elem b blks ≡ true) ↔ ((b ≡ header) ⊎ Backward header pred b)

  back_edge_sound :
      (fuel blk : ℕ) (preds : List ℕ) (pred : ℕ)
      → back_edge g fuel blk preds ≡ some (some pred)
      → (elem pred preds ≡ true) × Up pred blk
  unfolding back_edge
  back_edge_sound fuel blk [] pred e = absurd (ground arith)
  back_edge_sound fuel blk (p ∷ preds) pred e = elim (Option-cases (on_idom_chain g fuel blk p)) [
    | inl out ↦ absurd (ground arith)
    | inr (found, q) ↦ elim (Bool-cases found) [
      | inl here_it ↦
          let same : p ≡ pred = ground arith in
          (
            ground (arith, ==_iff p pred),
            subst (λ x. Up x blk) same (on_idom_chain_sound fuel blk p (q ∙ ap some here_it)),
          )
      | inr not_here ↦
          let (m, up) = back_edge_sound fuel blk preds pred (ground arith) in (ground arith, up)
    ]
  ]

  loop_of_sound :
      (fuel br header pred h : ℕ) (blks : List ℕ)
      → elem pred (g.predecessors header) ≡ true
      → Up pred header
      → ((header ≡ br) ⊎ Up br header)
      → loop_of g fuel br header pred ≡ some (some (h, blks))
      → IsBrLoop br h blks
  unfolding loop_of
  loop_of_sound fuel br header pred h blks m up above e =
      elim (Option-cases (collect_loop_blocks g fuel header pred)) [
        | inl out ↦ absurd (ground arith)
        | inr (set, q) ↦
            let same : header ≡ h = ground arith in
            let found : collect_loop_blocks g fuel header pred ≡ some blks = ground arith in
            subst (λ x. IsBrLoop br x blks) same
              (record {
                pred = pred;
                edge = m;
                dominated = up;
                above = above;
                inside = ground arith;
                members = λ b. collect_loop_blocks_correct fuel header pred blks b found;
              })
      ]

  Up-snoc : {a b c : ℕ} → Up a b → g.idom b ≡ some c → Up a c
  Up-snoc (one p) q = more p (one q)
  Up-snoc (more p u) q = more p (Up-snoc u q)

  Up-one : (br blk d : ℕ) → g.idom blk ≡ some d → ((blk ≡ br) ⊎ Up br blk) → (d ≡ br) ⊎ Up br d
  Up-one br blk d q (inl s) = inr (one (subst (λ x. g.idom x ≡ some d) s q))
  Up-one br blk d q (inr u) = inr (Up-snoc u q)

  br_loop_from_sound :
      (rounds fuel br blk h : ℕ) (blks : List ℕ)
      → ((blk ≡ br) ⊎ Up br blk)
      → br_loop_from g rounds fuel br blk ≡ some (some (h, blks))
      → IsBrLoop br h blks
  unfolding br_loop_from
  br_loop_from_sound zero fuel br blk h blks above e = absurd (ground arith)
  br_loop_from_sound (suc rounds) fuel br blk h blks above e =
      elim (Option-cases (back_edge g fuel blk (g.predecessors blk))) [
        | inl out ↦ absurd (ground arith)
        | inr (edge, q) ↦ elim (Option-cases edge) [
          | inl no_edge ↦ elim (Option-cases (g.idom blk)) [
            | inl root ↦ absurd (ground arith)
            | inr (d, p) ↦
                br_loop_from_sound rounds fuel br d h blks (Up-one br blk d p above) (ground arith)
          ]
          | inr (pred, r) ↦
              let (m, up) = back_edge_sound fuel blk (g.predecessors blk) pred (q ∙ ap some r) in
              loop_of_sound fuel br blk pred h blks m up above (ground arith)
        ]
      ]

  -- Where `getBrLoopBlocks` gives a loop for a branch, its header is the block of the branch or one of its
  -- dominators, a block that the header dominates has an edge back to it, the blocks are the header and all
  -- with a walk to that edge's source that does not enter the header, and the branch is among them.
  pub get_br_loop_blocks_sound :
      (fuel br h : ℕ) (blks : List ℕ)
      → get_br_loop_blocks g fuel br ≡ some (some (h, blks))
      → IsBrLoop br h blks
  unfolding get_br_loop_blocks
  get_br_loop_blocks_sound fuel br h blks e = br_loop_from_sound fuel fuel br br h blks (inl refl) e
