-- ===== src/Transaction/Region.antt =====
-- The blocks that `preloadTransactionCode` marks.
use cape_implementation.Prelude.{
  ℕ, zero, suc, ◌≡◌, ◌↔◌, ◌⊎◌, inl, inr, refl, ap, Bool, Bool-cases, List-cases, true, false, ◌||◌,
  some, List, [], ◌∷◌, arith, ◌==◌, ==_iff, elem, bind-some,
}
use cape_implementation.Worklist.{Search, push_back, expand, explore}
use cape_implementation.Worklist.Reach.{
  Walk, here, push_back-IsPush, offer_all_expanded, explore_reaches,
}
use cape_implementation.Preload.{Names, preload_bb}
use cape_implementation.Transaction.{
  Program, State, set_block, store_names, preload_own, preload_block, preload_loop, region_queue,
  preload_transaction_code,
}
use cape_implementation.Transaction.Marks.{
  Quiet, Quiet-refl, Quiet-trans, Marks, Marks-at, preload-starts, preload-ends,
}

module _ (p : Program) where
  store_names-Quiet : (tx : ℕ) (n : Names) (s : State) → Quiet s (store_names p tx n s)
  unfolding store_names
  store_names-Quiet tx n s = record {
    same_nodes = λ m. refl;
    same_starts = preload-starts tx n.emitted s.calls;
    same_ends = preload-ends tx n.emitted s.calls;
  }

  preload_own-Marks : (tx first : ℕ) (s : State) → Marks (λ b. false) s (preload_own p tx first s)
  unfolding preload_own store_names
  preload_own-Marks tx first s =
      elim (Bool-cases
        (p.code.is_debug (p.function_of first) || elem (p.function_of first) (s.funcs tx))) [
          | inl skip ↦ rw skip (record { slices = λ b. refl; quiet = Quiet-refl s })
          | inr new ↦ rw new (record {
            slices = λ b. refl;
            quiet =
                store_names-Quiet tx
                  (record {
                    funcs = p.function_of first ∷ s.funcs tx;
                    emitted = p.function_of first ∷ [];
                  })
                  s;
          })
        ]

  stored-Marks :
      (tx cur : ℕ) (n : Names) (s : State)
      → Marks (λ b. cur == b) s (store_names p tx n (set_block cur 777 s))
  unfolding store_names set_block
  stored-Marks tx cur n s = record {
    slices = λ b. refl;
    quiet = record {
      same_nodes = λ m. refl;
      same_starts = preload-starts tx n.emitted s.calls;
      same_ends = preload-ends tx n.emitted s.calls;
    };
  }

  preload_block-Marks :
      (fuel tx cur : ℕ) (s t : State)
      → preload_block p fuel tx cur s ≡ some t
      → Marks (λ b. cur == b) s t
  unfolding preload_block
  preload_block-Marks fuel tx cur s t e = elim (Bool-cases (s.block_slice cur == 777)) [
    | inl done ↦
        Marks-at (λ b. cur == b) s s t
          (record {
            slices = λ b. ground (arith, ==_iff cur b, ap s.block_slice);
            quiet = Quiet-refl s;
          })
          (rw done at e)
    | inr new ↦
        let (first, _, e1) = bind-some (p.first_node cur) _ t (rw new at e) in
        let (n, _, e2) =
          bind-some
            (preload_bb p.code fuel (p.basic_block first)
              (record { funcs = s.funcs tx; emitted = [] }))
            _ t e1 in
        Marks-at (λ b. cur == b) s _ t (stored-Marks tx cur n s) e2
  ]

  -- The blocks that the search has expanded are marked.
  abbrev Behind : Search → State → Type 0
  Behind q s = (b : ℕ) → elem b q.expanded ≡ true → s.block_slice b ≡ 777

  stopped :
      (q : Search) (s t : State) → some s ≡ some t → Behind q s → Marks (λ b. elem b q.expanded) s t
  stopped q s t e h =
      Marks-at (λ b. elem b q.expanded) s s t
        (record { slices = λ b. ground (arith, h b); quiet = Quiet-refl s }) e

  Marks-join :
      (cur : ℕ) (more : ℕ → Bool) (s u t : State)
      → more cur ≡ true
      → Marks (λ b. cur == b) s u
      → Marks more u t
      → Marks more s t
  Marks-join cur more s u t m a c = record {
    slices = λ b. ground (arith, a.slices b, c.slices b, ==_iff cur b, ap more);
    quiet = Quiet-trans s u t a.quiet c.quiet;
  }

  next_expanded :
      (q : Search) (cur : ℕ) (rest : List ℕ)
      → (expand push_back p.graph.successors q cur rest).expanded ≡ cur ∷ q.expanded
  unfolding expand
  next_expanded q cur rest =
      offer_all_expanded p.graph.successors [] [] push_back push_back-IsPush
        (p.graph.successors cur) (record q { pending = rest; expanded = cur ∷ q.expanded })

  preload_loop-Marks :
      (fuel depth tx : ℕ) (q : Search) (s t : State)
      → preload_loop p fuel depth tx q s ≡ some t
      → (r : Search) × (explore push_back p.graph.successors fuel q ≡ some r)
        × ((b : ℕ) → elem b q.expanded ≡ true → elem b r.expanded ≡ true)
        × (Behind q s → Marks (λ b. elem b r.expanded) s t)
  unfolding preload_loop explore
  preload_loop-Marks zero depth tx q s t e = elim (List-cases q.pending) [
    | inl empty ↦ (q, ground arith, λ b m. m, stopped q s t (ground arith))
    | inr (cur, rest, f) ↦ absurd (ground arith)
  ]
  preload_loop-Marks (suc fuel) depth tx q s t e = elim (List-cases q.pending) [
    | inl empty ↦ (q, ground arith, λ b m. m, stopped q s t (ground arith))
    | inr (cur, rest, f) ↦
        let (u, g, e1) =
          bind-some (preload_block p depth tx cur s) _ t (rw (f, preload_loop) at e) in
        let next = expand push_back p.graph.successors q cur rest in
        let grown = next_expanded q cur rest in
        let first = preload_block-Marks depth tx cur s u g in
        let (r, x, kept, marks) = preload_loop-Marks fuel depth tx next u t e1 in
        (
          r,
          rw (f, explore) x,
          λ b m. kept b (ground (arith, ap (elem b) grown)),
          λ h.
              Marks-join cur (λ b. elem b r.expanded) s u t
                (kept cur (ground (arith, ap (elem cur) grown))) first
                (marks (λ b m. ground (arith, h b, first.slices b, ap (elem b) grown))),
        )
  ]

  -- The blocks that can be reached from the branch in `start` before `end`.
  abbrev pub Region : ℕ → ℕ → ℕ → Type 0
  Region start end = Walk p.graph.successors (start ∷ []) (end ∷ start ∷ [])

  entered-Marks :
      (tx first start : ℕ) (s : State)
      → Marks (λ b. start == b) s (set_block start 777 (preload_own p tx first s))
  unfolding set_block
  entered-Marks tx first start s =
      let own = preload_own-Marks tx first s in
      record {
        slices = λ b. ground (arith, own.slices b);
        quiet = record {
          same_nodes = own.quiet.same_nodes;
          same_starts = own.quiet.same_starts;
          same_ends = own.quiet.same_ends;
        };
      }

  Region-marked :
      (fuel start end : ℕ) (r : Search)
      → explore push_back p.graph.successors fuel (region_queue p start end) ≡ some r
      → (b : ℕ) → (elem b r.expanded ≡ true) ↔ Region start end b
  Region-marked fuel start end r e b =
      (explore_reaches p.graph.successors (start ∷ []) (end ∷ start ∷ []) push_back push_back-IsPush
        fuel r (λ a m. ground arith) e b).0

  -- Where `preloadTransactionCode` returns for a branch that is not marked yet, it has given the slice
  -- 777 to exactly the blocks that can be reached from the branch without the end of the transaction, the
  -- slices of other blocks and of nodes are as before, and no start and no end was inserted.
  pub preload_transaction_code_correct :
      (fuel start end : ℕ) (s t : State)
      → preload_transaction_code p fuel start end s ≡ some t
      → (s.block_slice start == 777) ≡ false
      → ((b : ℕ)
          → (Region start end b → t.block_slice b ≡ 777)
            × ((t.block_slice b ≡ s.block_slice b) ⊎ Region start end b))
        × Quiet s t
  unfolding preload_transaction_code
  preload_transaction_code_correct fuel start end s t e fresh = elim (Bool-cases (start == end)) [
    | inl same ↦ absurd (ground arith)
    | inr apart ↦
        let (tx, _, e1) = bind-some (p.last_node start) _ t (rw (apart, fresh) at e) in
        let (first, _, e2) = bind-some (p.first_node start) _ t e1 in
        let entry = set_block start 777 (preload_own p tx first s) in
        let (r, x, _, marks) =
          preload_loop-Marks fuel fuel tx (region_queue p start end) entry t e2 in
        let region = Region-marked fuel start end r x in
        let whole =
          Marks-join start (λ b. elem b r.expanded) s entry t
            ((region start).1 (here (ground arith))) (entered-Marks tx first start s)
            (marks (λ b m. absurd (ground arith))) in
        (
          λ b. (
            λ w. ground (arith, whole.slices b, (region b).1 w),
            elim (Bool-cases (elem b r.expanded)) [
              | inl yes_marked ↦ inr ((region b).0 yes_marked)
              | inr not_marked ↦ inl (ground (arith, whole.slices b))
            ],
          ),
          whole.quiet,
        )
  ]
