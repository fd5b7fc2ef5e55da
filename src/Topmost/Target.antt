-- ===== src/Topmost/Target.antt =====
-- What the search for a branch does to the state.
use cape_implementation.Prelude.{
  ℕ, zero, suc, ◌≡◌, inl, inr, refl, subst, Bool, Bool-cases, Option-cases, true, false, ◌||◌, ◌&&◌,
  not, Option, none, some, List, [], ◌∷◌, arith, ◌==◌, bind-some,
}
use cape_implementation.Transaction.{Program, State, Objects, is_branch}
use cape_implementation.Placement.{process_highest_br}
use cape_implementation.Topmost.{
  Dependences, or_else, Visit, rev_loop, rev_controls, sensitive_block, sensitive_node, dominator,
  visit_dominator, first_of, at_dominator, search_branch,
}

module _ (p : Program) (d : Dependences) (fuel slice_id : ℕ) (o : Objects) where
  -- The transaction was placed for a branch at the end of a block, the block and the branch being sensitive.
  pub record AtBranch (s t : State) : Type 0 where
    pub block : ℕ
    pub branch : ℕ
    pub at_end : p.last_node block ≡ some branch
    pub sensitive : (s.block_slice block == 0 || s.node_slice branch == 0) ≡ false
    pub branches : is_branch (p.opcode branch) ≡ true
    pub placed : process_highest_br p fuel branch slice_id o s ≡ some t

  -- The answer `false` leaves the state as it is, the answer `true` means a placed transaction.
  pub data Sound (s : State) : Bool × State → Type 0 where
    missed : Sound s (false, s)
    found : {t : State} → AtBranch s t → Sound s (true, t)

  abbrev SoundVisit : Visit → Type 0
  SoundVisit visit =
      (bb nd : Option ℕ) (s : State) (q : Bool × State) → visit bb nd s ≡ some q → Sound s q

  pub to_answer : (s : State) (r q : Bool × State) → Sound s r → some r ≡ some q → Sound s q
  to_answer s r q h e = subst (λ x. Sound s x) (ground arith) h

  pub or_else-Sound :
      (s : State) (rest : State → Option (Bool × State)) {r : Bool × State} (q : Bool × State)
      → Sound s r
      → ((x : Bool × State) → rest s ≡ some x → Sound s x)
      → or_else r rest ≡ some q
      → Sound s q
  unfolding or_else
  or_else-Sound s rest q missed h e = h q e
  or_else-Sound s rest q (found {t} a) h e = to_answer s (true, t) q (found a) e

  pub rev_loop-Sound :
      (visit : Visit) (inst : ℕ) (nodes : List ℕ) (s : State) (q : Bool × State)
      → SoundVisit visit
      → rev_loop p d visit inst nodes s ≡ some q
      → Sound s q
  unfolding rev_loop
  rev_loop-Sound visit inst [] s q h e = to_answer s (false, s) q missed e
  rev_loop-Sound visit inst (node ∷ nodes) s q h e =
      elim (Bool-cases (not (d.is_function node) && d.in_graph inst node)) [
        | inl skipped ↦ rev_loop-Sound visit inst nodes s q h (rw skipped at e)
        | inr taken ↦
            let (r, f, e1) =
              bind-some (visit (p.block_of node) (some node) s) _ q (rw taken at e) in
            or_else-Sound s (rev_loop p d visit inst nodes) q
              (h (p.block_of node) (some node) s r f)
              (λ x g. rev_loop-Sound visit inst nodes s x h g) e1
      ]

  rev_controls-Sound :
      (visit : Visit) (inst : Option ℕ) (s : State) (q : Bool × State)
      → SoundVisit visit
      → rev_controls p d visit inst s ≡ some q
      → Sound s q
  unfolding rev_controls
  rev_controls-Sound visit none s q h e = to_answer s (false, s) q missed e
  rev_controls-Sound visit (some inst) s q h e =
      rev_loop-Sound visit inst (d.rev_control inst) s q h e

  visit_dominator-Sound :
      (visit : Visit) (cd : Option ℕ) (s : State) (q : Bool × State)
      → SoundVisit visit
      → visit_dominator p d visit cd s ≡ some q
      → Sound s q
  unfolding visit_dominator
  visit_dominator-Sound visit none s q h e = to_answer s (false, s) q missed e
  visit_dominator-Sound visit (some cd) s q h e = h (some cd) none s q e

  sensitive_block_lem :
      (s : State) (b : Option ℕ) (c : ℕ)
      → sensitive_block p d s b ≡ some c
      → (s.block_slice c == 0) ≡ false
  unfolding sensitive_block
  sensitive_block_lem s none c e = absurd (ground arith)
  sensitive_block_lem s (some b) c e = ground arith

  dominator_lem :
      (s : State) (b : Option ℕ) (c : ℕ)
      → dominator p d s b ≡ some c
      → (s.block_slice c == 0) ≡ false
  unfolding dominator
  dominator_lem s none c e = absurd (ground arith)
  dominator_lem s (some b) c e = sensitive_block_lem s (p.graph.idom b) c e

  at_dominator-Sound :
      (cd : Option ℕ) (s : State) (q : Bool × State)
      → ((c : ℕ) → cd ≡ some c → (s.block_slice c == 0) ≡ false)
      → at_dominator p d fuel slice_id o cd s ≡ some q
      → Sound s q
  unfolding at_dominator
  at_dominator-Sound none s q h e = to_answer s (false, s) q missed e
  at_dominator-Sound (some cd) s q h e = elim (Option-cases (p.last_node cd)) [
    | inl no_node ↦ to_answer s (false, s) q missed (rw (no_node, at_dominator) at e)
    | inr (last, f) ↦
        elim (Bool-cases (s.node_slice last == 0 || not (is_branch (p.opcode last)))) [
          | inl other ↦ to_answer s (false, s) q missed (rw (f, at_dominator, other) at e)
          | inr hit ↦
              let (t, g, e1) =
                bind-some (process_highest_br p fuel last slice_id o s) _ q
                  (rw (f, at_dominator, hit) at e) in
              to_answer s (true, t) q
                (found (record {
                  block = cd;
                  branch = last;
                  at_end = f;
                  sensitive = ground (arith, h cd refl);
                  branches = ground arith;
                  placed = g;
                }))
                e1
        ]
  ]

  -- Where `processBBlockIDomsAndNodeRevCDs` returns false it has changed nothing; where it returns true it
  -- has called `processHighestBr`, once and on the state it began with, for a sensitive branch that ends
  -- a sensitive block.
  pub search_branch-Sound :
      (rounds : ℕ) (bb nd : Option ℕ) (s : State) (q : Bool × State)
      → search_branch p d rounds fuel slice_id o bb nd s ≡ some q
      → Sound s q
  unfolding search_branch
  search_branch-Sound zero bb nd s q e = absurd (ground arith)
  search_branch-Sound (suc rounds) bb nd s q e =
      let visit : Visit = search_branch p d rounds fuel slice_id o in
      let ih : SoundVisit visit = search_branch-Sound rounds in
      let block = sensitive_block p d s bb in
      let cd = dominator p d s block in
      let (r, f, e1) = bind-some (visit_dominator p d visit cd s) _ q e in
      or_else-Sound s _ q (visit_dominator-Sound visit cd s r ih f)
        (λ x g.
          let (r2, f2, g1) = bind-some (rev_controls p d visit (first_of p d block) s) _ x g in
          or_else-Sound s _ x (rev_controls-Sound visit (first_of p d block) s r2 ih f2)
            (λ y k.
              let (r3, f3, k1) =
                bind-some (rev_controls p d visit (sensitive_node p d s nd) s) _ y k in
              or_else-Sound s _ y (rev_controls-Sound visit (sensitive_node p d s nd) s r3 ih f3)
                (λ z l. at_dominator-Sound cd s z (dominator_lem s block) l) k1)
            g1)
        e1
