-- ===== src/Topmost/Whole.antt =====
-- What the handler of a sensitive block does to the state.
use cape_implementation.Prelude.{
  ℕ, ◌≡◌, inl, inr, refl, subst, Bool, Option-cases, true, false, Option, bind, none, some, List,
  arith, elem, bind-some,
}
use cape_implementation.Transaction.{Program, State, Objects}
use cape_implementation.Placement.{process_highest_br, place_trans_for_loop}
use cape_implementation.Placement.Steps.{HasNodes}
use cape_implementation.Placement.Pairing.{Together, process_highest_br-Together}
use cape_implementation.Topmost.{
  Dependences, or_else, rev_loop, search_branch, first_branch, use_branch, at_block,
  process_bblock_rev_cds,
}
use cape_implementation.Topmost.Target.{Sound, missed, found, rev_loop-Sound, search_branch-Sound}
use cape_implementation.Topmost.Branch.{
  IsBranchOf, NoBranch, first_branch-IsBranchOf, first_branch-NoBranch,
}

module _ (p : Program) (d : Dependences) where
  module _ (fuel slice_id : ℕ) (o : Objects) where
    -- The branch that the search from the block found was used, or its own where none was found.
    pub data Used (cd last : ℕ) (s : State) : Bool × State → Type 0 where
      above :
          {t : State}
          → search_branch p d fuel fuel slice_id o (some cd) none s ≡ some (true, t)
          → Used cd last s (true, t)
      itself :
          {t : State}
          → search_branch p d fuel fuel slice_id o (some cd) none s ≡ some (false, s)
          → process_highest_br p fuel last slice_id o s ≡ some t
          → Used cd last s (true, t)

    or_else-Used :
        (cd last : ℕ) (s : State) {r : Bool × State} (q : Bool × State)
        → search_branch p d fuel fuel slice_id o (some cd) none s ≡ some r
        → Sound p d fuel slice_id o s r
        → or_else r (λ t. bind (process_highest_br p fuel last slice_id o t) (λ u. some (true, u)))
          ≡ some q
        → Used cd last s q
    unfolding or_else
    or_else-Used cd last s q f missed e =
        let (t, g, e1) = bind-some (process_highest_br p fuel last slice_id o s) _ q e in
        subst (λ x. Used cd last s x) (ground arith) (itself f g)
    or_else-Used cd last s q f (found {t} a) e =
        subst (λ x. Used cd last s x) (ground arith) (above {t = t} f)

    use_branch-Used :
        (cd last : ℕ) (s : State) (q : Bool × State)
        → use_branch p d fuel slice_id o cd last s ≡ some q
        → Used cd last s q
    unfolding use_branch
    use_branch-Used cd last s q e =
        let (r, f, e1) =
          bind-some (search_branch p d fuel fuel slice_id o (some cd) none s) _ q e in
        or_else-Used cd last s q f
          (search_branch-Sound p d fuel slice_id o fuel (some cd) none s r f) e1

    Used-Sound :
        (is_loop : Bool) (loop : List ℕ) (cd last : ℕ) (s : State) {q : Bool × State}
        → IsBranchOf p d s is_loop loop cd last
        → Used cd last s q
        → Sound p d fuel slice_id o s q
    Used-Sound is_loop loop cd last s b (above {t} f) =
        search_branch-Sound p d fuel slice_id o fuel (some cd) none s (true, t) f
    Used-Sound is_loop loop cd last s b (itself {t} f g) = found (record {
      block = cd;
      branch = last;
      at_end = b.at_end;
      sensitive = b.sensitive;
      branches = b.branches;
      placed = g;
    })

    -- The transaction for the block itself: as a loop, for an address dependency, or none.
    pub data InBlock (inst : ℕ) (loop : List ℕ) (s : State)
        : Bool → Bool → Bool × State → Type 0 where
      as_loop :
          {add_dep : Bool} {t : State}
          → place_trans_for_loop p fuel inst loop slice_id o s ≡ some t
          → InBlock inst loop s true add_dep (false, t)
      for_address :
          {t : State}
          → process_highest_br p fuel inst slice_id o s ≡ some t
          → InBlock inst loop s false true (false, t)
      untouched : InBlock inst loop s false false (false, s)

    at_block-InBlock :
        (is_loop add_dep : Bool) (inst : ℕ) (loop : List ℕ) (s : State) (q : Bool × State)
        → at_block p d fuel is_loop add_dep inst loop slice_id o s ≡ some q
        → InBlock inst loop s is_loop add_dep q
    unfolding at_block
    at_block-InBlock true add_dep inst loop s q e =
        let (t, f, e1) = bind-some (place_trans_for_loop p fuel inst loop slice_id o s) _ q e in
        subst (λ x. InBlock inst loop s true add_dep x) (ground arith) (as_loop f)
    at_block-InBlock false true inst loop s q e =
        let (t, f, e1) = bind-some (process_highest_br p fuel inst slice_id o s) _ q e in
        subst (λ x. InBlock inst loop s false true x) (ground arith) (for_address f)
    at_block-InBlock false false inst loop s q e =
        subst (λ x. InBlock inst loop s false false x) (ground arith) untouched

    abbrev pub search_first : ℕ → State → Option (Bool × State)
    search_first inst s =
        rev_loop p d (search_branch p d fuel fuel slice_id o) inst (d.rev_control inst) s

    -- The three ways in which the handler ends.
    pub data Handled (is_loop add_dep : Bool) (bb : ℕ) (loop : List ℕ) (s : State)
        (q : Bool × State) : Type 0 where
      by_branch :
          (cd last : ℕ)
          → elem cd (d.rev_control_blocks bb) ≡ true
          → IsBranchOf p d s is_loop loop cd last
          → Used cd last s q
          → Sound p d fuel slice_id o s q
          → Handled is_loop add_dep bb loop s q
      by_search :
          (inst : ℕ)
          → NoBranch p d s is_loop loop (d.rev_control_blocks bb)
          → p.first_node bb ≡ some inst
          → search_first inst s ≡ some q
          → q.0 ≡ true
          → Sound p d fuel slice_id o s q
          → Handled is_loop add_dep bb loop s q
      by_block :
          (inst : ℕ)
          → NoBranch p d s is_loop loop (d.rev_control_blocks bb)
          → p.first_node bb ≡ some inst
          → search_first inst s ≡ some (false, s)
          → InBlock inst loop s is_loop add_dep q
          → Handled is_loop add_dep bb loop s q

    or_else-Handled :
        (is_loop add_dep : Bool) (bb : ℕ) (loop : List ℕ) (s : State) (inst : ℕ) {r : Bool × State}
        (q : Bool × State)
        → NoBranch p d s is_loop loop (d.rev_control_blocks bb)
        → p.first_node bb ≡ some inst
        → search_first inst s ≡ some r
        → Sound p d fuel slice_id o s r
        → or_else r (at_block p d fuel is_loop add_dep inst loop slice_id o) ≡ some q
        → Handled is_loop add_dep bb loop s q
    unfolding or_else
    or_else-Handled is_loop add_dep bb loop s inst q none_of f g missed e =
        by_block inst none_of f g (at_block-InBlock is_loop add_dep inst loop s q e)
    or_else-Handled is_loop add_dep bb loop s inst q none_of f g (found {t} a) e =
        subst (λ x. Handled is_loop add_dep bb loop s x) (ground arith)
          (by_search inst none_of f g refl (found a))

    -- Where `processBBlockRevCDs` returns, then either a block that this one depends on is sensitive, lies
    -- outside the loop and ends in a sensitive branch, and the answer is true, with the transaction at the
    -- branch that the search from that block finds or, where it finds none, at that one; or there is no
    -- such block, and the search from the dependences of the first node has placed the transaction at a
    -- sensitive branch; or it has found nothing either, and the transaction is placed for the block itself,
    -- as a loop or for an address dependency, or else nothing changes, and the answer is false.
    pub process_bblock_rev_cds-Handled :
        (is_loop add_dep : Bool) (bb : ℕ) (loop : List ℕ) (s : State) (q : Bool × State)
        → process_bblock_rev_cds p d fuel is_loop add_dep bb loop slice_id o s ≡ some q
        → Handled is_loop add_dep bb loop s q
    unfolding process_bblock_rev_cds
    process_bblock_rev_cds-Handled is_loop add_dep bb loop s q e =
        elim (Option-cases (first_branch p d s is_loop loop (d.rev_control_blocks bb))) [
          | inl no_branch ↦
              let (inst, f, e1) =
                bind-some (p.first_node bb) _ q (rw (no_branch, process_bblock_rev_cds) at e) in
              let (r, g, e2) = bind-some (search_first inst s) _ q e1 in
              or_else-Handled is_loop add_dep bb loop s inst q
                (first_branch-NoBranch p d s is_loop loop (d.rev_control_blocks bb) no_branch) f g
                (rev_loop-Sound p d fuel slice_id o (search_branch p d fuel fuel slice_id o) inst
                  (d.rev_control inst) s r (search_branch-Sound p d fuel slice_id o fuel) g)
                e2
          | inr ((cd, last), f) ↦
              let (m, b) =
                first_branch-IsBranchOf p d s is_loop loop (d.rev_control_blocks bb) cd last f in
              let used = use_branch-Used cd last s q (rw (f, process_bblock_rev_cds) at e) in
              by_branch cd last m b used (Used-Sound is_loop loop cd last s b used)
        ]

    module _ (nodes : HasNodes p) where
      Sound-Together :
          (s : State) {q : Bool × State} → Sound p d fuel slice_id o s q → Together p nodes s q.1
      Sound-Together s missed = (0, omega arith, omega arith, omega arith)
      Sound-Together s (found {t} a) =
          process_highest_br-Together p nodes fuel a.branch slice_id o s t a.placed

      InBlock-Together :
          (add_dep : Bool) (inst : ℕ) (loop : List ℕ) (s : State) {q : Bool × State}
          → InBlock inst loop s false add_dep q
          → Together p nodes s q.1
      InBlock-Together true inst loop s (for_address {t} f) =
          process_highest_br-Together p nodes fuel inst slice_id o s t f
      InBlock-Together false inst loop s untouched = (0, omega arith, omega arith, omega arith)

      -- For a block that is in no loop, `processBBlockRevCDs` inserts as many starts of a transaction as
      -- ends, at most one of each, where it returns and all blocks have nodes.
      pub process_bblock_rev_cds-Together :
          (add_dep : Bool) (bb : ℕ) (loop : List ℕ) (s : State) (q : Bool × State)
          → process_bblock_rev_cds p d fuel false add_dep bb loop slice_id o s ≡ some q
          → Together p nodes s q.1
      process_bblock_rev_cds-Together add_dep bb loop s q e =
          elim (process_bblock_rev_cds-Handled false add_dep bb loop s q e) [
            | by_branch cd last m b used h ↦ Sound-Together s h
            | by_search inst none_of f g t h ↦ Sound-Together s h
            | by_block inst none_of f g h ↦ InBlock-Together add_dep inst loop s h
          ]
