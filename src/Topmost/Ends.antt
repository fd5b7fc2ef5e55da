-- ===== src/Topmost/Ends.antt =====
-- The search for a branch returns.
use cape_implementation.Prelude.{
  ℕ, zero, suc, ◌+◌, ◌≤◌, ◌<◌, ◌≡◌, inl, inr, refl, ap, Bool, Bool-cases, true, false, ◌||◌, ◌&&◌,
  not, Option, none, some, List, [], ◌∷◌, arith, ◌==◌, elem, bind,
}
use cape_implementation.Transaction.{Program, State, Objects, is_branch}
use cape_implementation.Topmost.{
  Dependences, or_else, Visit, rev_loop, rev_controls, sensitive_block, sensitive_node, dominator,
  visit_dominator, first_of, at_dominator, search_branch,
}
use cape_implementation.Placement.Ends.{IsPlaced, process_highest_br_ends}

-- Ranks of the nodes and of the blocks that every step of the search lowers.
pub record IsRanked (p : Program) (d : Dependences) (node_rank block_rank : ℕ → ℕ) : Type 0 where
  pub dominator_falls : (b c : ℕ) → p.graph.idom b ≡ some c → block_rank c < block_rank b
  pub first_below : (b i : ℕ) → p.first_node b ≡ some i → node_rank i ≤ block_rank b
  pub node_falls :
      (inst node : ℕ)
      → elem node (d.rev_control inst) ≡ true
      → (not (d.is_function node) && d.in_graph inst node) ≡ false
      → node_rank node < node_rank inst
  pub block_falls :
      (inst node c : ℕ)
      → elem node (d.rev_control inst) ≡ true
      → (not (d.is_function node) && d.in_graph inst node) ≡ false
      → p.block_of node ≡ some c
      → block_rank c < node_rank inst

module _ (p : Program) (d : Dependences) (n : ℕ) (placed : IsPlaced p n)
    (node_rank block_rank : ℕ → ℕ) (ranked : IsRanked p d node_rank block_rank) where
  abbrev Below : (ℕ → ℕ) → ℕ → Option ℕ → Type 0
  Below rank k o = (x : ℕ) → o ≡ some x → rank x < k

  abbrev EndsBelow : ℕ → Visit → Type 0
  EndsBelow k visit =
      (bb nd : Option ℕ) (s : State)
      → Below block_rank k bb
      → Below node_rank k nd
      → (q : Bool × State) × (visit bb nd s ≡ some q)

  or_else_ends :
      (r : Bool × State) (rest : State → Option (Bool × State))
      → ((t : State) → (q : Bool × State) × (rest t ≡ some q))
      → (q : Bool × State) × (or_else r rest ≡ some q)
  unfolding or_else
  or_else_ends (true, s) rest h = ((true, s), refl)
  or_else_ends (false, s) rest h = h s

  then_ends :
      (first : Option (Bool × State)) (rest : State → Option (Bool × State))
      → (r : Bool × State) × (first ≡ some r)
      → ((t : State) → (q : Bool × State) × (rest t ≡ some q))
      → (q : Bool × State) × (bind first (λ r. or_else r rest) ≡ some q)
  then_ends first rest (r, e) h = let (q, f) = or_else_ends r rest h in (q, rw e f)

  rev_loop_ends :
      (visit : Visit) (inst k : ℕ) (nodes : List ℕ) (s : State)
      → EndsBelow k visit
      → node_rank inst < suc k
      → ((a : ℕ) → elem a nodes ≡ true → elem a (d.rev_control inst) ≡ true)
      → (q : Bool × State) × (rev_loop p d visit inst nodes s ≡ some q)
  unfolding rev_loop
  rev_loop_ends visit inst k [] s h le sub = ((false, s), refl)
  rev_loop_ends visit inst k (node ∷ nodes) s h le sub =
      elim (Bool-cases (not (d.is_function node) && d.in_graph inst node)) [
        | inl skipped ↦
            let (q, e) = rev_loop_ends visit inst k nodes s h le (λ a m. sub a (ground arith)) in
            (q, rw skipped e)
        | inr taken ↦
            let among = sub node (ground arith) in
            let (r, e) =
              h (p.block_of node) (some node) s
                (λ c f. omega (arith, ranked.block_falls inst node c among taken f))
                (λ x f. let lower = ranked.node_falls inst node among taken in ground arith) in
            let (q, f) =
              or_else_ends r (rev_loop p d visit inst nodes)
                (λ t. rev_loop_ends visit inst k nodes t h le (λ a m. sub a (ground arith))) in
            (q, rw (taken, e) f)
      ]

  rev_controls_ends :
      (visit : Visit) (inst : Option ℕ) (k : ℕ) (s : State)
      → EndsBelow k visit
      → Below node_rank (suc k) inst
      → (q : Bool × State) × (rev_controls p d visit inst s ≡ some q)
  unfolding rev_controls
  rev_controls_ends visit none k s h b = ((false, s), refl)
  rev_controls_ends visit (some inst) k s h b =
      rev_loop_ends visit inst k (d.rev_control inst) s h (b inst refl) (λ a m. m)

  Below-sensitive :
      (k : ℕ) (s : State) (o : Option ℕ)
      → Below block_rank k o
      → Below block_rank k (sensitive_block p d s o)
  unfolding sensitive_block
  Below-sensitive k s none h x e = absurd (ground arith)
  Below-sensitive k s (some b) h x e =
      let same : b ≡ x = ground arith in omega (arith, h b refl, ap block_rank same)

  Below-node :
      (k : ℕ) (s : State) (o : Option ℕ)
      → Below node_rank k o
      → Below node_rank k (sensitive_node p d s o)
  unfolding sensitive_node
  Below-node k s none h x e = absurd (ground arith)
  Below-node k s (some b) h x e =
      let same : b ≡ x = ground arith in omega (arith, h b refl, ap node_rank same)

  Below-dominator :
      (k : ℕ) (s : State) (o : Option ℕ)
      → Below block_rank (suc k) o
      → Below block_rank k (dominator p d s o)
  unfolding dominator
  Below-dominator k s none h x e = absurd (ground arith)
  Below-dominator k s (some b) h x e =
      Below-sensitive k s (p.graph.idom b)
        (λ c q. omega (arith, h b refl, ranked.dominator_falls b c q)) x e

  Below-first : (k : ℕ) (o : Option ℕ) → Below block_rank k o → Below node_rank k (first_of p d o)
  unfolding first_of
  Below-first k none h x e = absurd (ground arith)
  Below-first k (some b) h x e = omega (arith, h b refl, ranked.first_below b x e)

  visit_dominator_ends :
      (visit : Visit) (cd : Option ℕ) (k : ℕ) (s : State)
      → EndsBelow k visit
      → Below block_rank k cd
      → (q : Bool × State) × (visit_dominator p d visit cd s ≡ some q)
  unfolding visit_dominator
  visit_dominator_ends visit none k s h b = ((false, s), refl)
  visit_dominator_ends visit (some cd) k s h b = h (some cd) none s b (λ x e. absurd (ground arith))

  at_dominator_ends :
      (slice_id : ℕ) (o : Objects) (cd : Option ℕ) (s : State)
      → (q : Bool × State) × (at_dominator p d (n + 1) slice_id o cd s ≡ some q)
  unfolding at_dominator
  at_dominator_ends slice_id o none s = ((false, s), refl)
  at_dominator_ends slice_id o (some cd) s =
      let (last, f) = placed.finite.has_last cd in
      elim (Bool-cases (s.node_slice last == 0 || not (is_branch (p.opcode last)))) [
        | inl unfit ↦ ((false, s), rw (f, at_dominator, unfit) refl)
        | inr hit ↦
            let (t, e) = process_highest_br_ends p n placed cd last slice_id o s f (ground arith) in
            ((true, t), rw (f, at_dominator, hit, e) refl)
      ]

  search_nothing :
      (visit : Visit) (slice_id : ℕ) (o : Objects) (s : State) (rounds : ℕ) (bb nd : Option ℕ)
      → bb ≡ none
      → nd ≡ none
      → search_branch p d (suc rounds) (n + 1) slice_id o bb nd s ≡ some (false, s)
  unfolding search_branch sensitive_block sensitive_node dominator visit_dominator first_of
      rev_controls at_dominator or_else
  search_nothing visit slice_id o s rounds bb nd e f = rw (e, f) refl

  none-Below : (rank : ℕ → ℕ) (o : Option ℕ) → Below rank 0 o → o ≡ none
  none-Below rank none h = refl
  none-Below rank (some x) h = absurd (omega (arith, h x refl))

  search_branch_ends_from :
      (k rounds slice_id : ℕ) (o : Objects)
      → k < rounds
      → EndsBelow k (search_branch p d rounds (n + 1) slice_id o)
  unfolding search_branch
  search_branch_ends_from k zero slice_id o lt bb nd s hb hn = absurd (omega arith)
  search_branch_ends_from zero (suc rounds) slice_id o lt bb nd s hb hn = (
    (false, s),
    search_nothing (search_branch p d rounds (n + 1) slice_id o) slice_id o s rounds bb nd
        (none-Below block_rank bb hb) (none-Below node_rank nd hn),
  )
  search_branch_ends_from (suc k) (suc rounds) slice_id o lt bb nd s hb hn =
      let visit : Visit = search_branch p d rounds (n + 1) slice_id o in
      let ih : EndsBelow k visit = search_branch_ends_from k rounds slice_id o (omega arith) in
      let block = sensitive_block p d s bb in
      let cd = dominator p d s block in
      let block_below = Below-sensitive (suc k) s bb hb in
      then_ends _ _ (visit_dominator_ends visit cd k s ih (Below-dominator k s block block_below))
        (λ t.
          then_ends _ _
            (rev_controls_ends visit (first_of p d block) k t ih
              (Below-first (suc k) block block_below))
            (λ u.
              then_ends _ _
                (rev_controls_ends visit (sensitive_node p d u nd) k u ih
                  (Below-node (suc k) u nd hn))
                (λ v. at_dominator_ends slice_id o cd v)))

  -- Where the ranks that each step of the search lowers are at most `n`, the search returns from any
  -- block and node.
  pub search_branch_ends :
      (slice_id : ℕ) (o : Objects) (bb nd : Option ℕ) (s : State)
      → Below block_rank (n + 1) bb
      → Below node_rank (n + 1) nd
      → (q : Bool × State) × (search_branch p d (n + 2) (n + 1) slice_id o bb nd s ≡ some q)
  search_branch_ends slice_id o bb nd s hb hn =
      search_branch_ends_from (n + 1) (n + 2) slice_id o (omega arith) bb nd s hb hn
