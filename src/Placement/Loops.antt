-- ===== src/Placement/Loops.antt =====
-- The transactions that are put around loops.
use cape_implementation.Prelude.{
  ℕ, suc, ◌+◌, ◌≡◌, inl, inr, refl, sym, ap, ◌∙◌, Bool-cases, true, false, some, List, arith, ◌==◌,
  ==_iff, if◌then◌else◌, bind-some,
}
use cape_implementation.Worklist.Reach.{here, step}
use cape_implementation.Transaction.{
  Program, State, Objects, end_transaction, no_objects, set_block, set_node, insert_call,
  add_transaction_start, add_pre_load, insertion_point, preload_transaction_code,
}
use cape_implementation.Transaction.Marks.{starts, ends, at_result}
use cape_implementation.Transaction.Region.{Region, preload_transaction_code_correct}
use cape_implementation.Placement.{
  loop_exit, end_at_exit, add_transaction_end_for_loop, place_before,
}
use cape_implementation.Placement.Steps.{add_pre_load-Marks, preload-Step, preload_marked}

module _ (p : Program) where
  not_in-Region : (start end b : ℕ) → (start == end) ≡ false → b ≡ end → ¬ (Region p start end b)
  not_in-Region start end b apart e (here m) = ground (arith, ==_iff start b)
  not_in-Region start end b apart e (step w m out) = ground (arith, ==_iff end b)

  -- The end of the transaction keeps its slice.
  preload-keeps_end :
      (fuel start end : ℕ) (s t : State)
      → preload_transaction_code p fuel start end s ≡ some t
      → t.block_slice end ≡ s.block_slice end
  unfolding preload_transaction_code
  preload-keeps_end fuel start end s t e = elim (Bool-cases (start == end)) [
    | inl same ↦ absurd (ground arith)
    | inr apart ↦ elim (Bool-cases (s.block_slice start == 777)) [
      | inl done ↦
          ap (λ u. u.block_slice end) (sym (unchanged (preload_marked p fuel start end s t e done)))
      | inr fresh ↦
          let (region, _) = preload_transaction_code_correct p fuel start end s t e fresh in
          elim ((region end).1) [
            | inl same ↦ same
            | inr w ↦ absurd (not_in-Region start end end apart refl w)
          ]
    ]
  ]
    where
      unchanged : some s ≡ some t → s ≡ t
      unchanged q = ground arith

  -- What the end of a loop's transaction adds: an end, unless the exit block is marked already.
  record Closed (exit slice_id : ℕ) (s t : State) : Type 0 where
    no_start : starts t.calls ≡ starts s.calls
    one_end : ends t.calls ≡ (if s.block_slice exit == slice_id then 0 else 1) + ends s.calls
    exit_marked : t.block_slice exit ≡ slice_id
    nodes : (n : ℕ) → t.node_slice n ≡ s.node_slice n

  end_at_exit-Closed :
      (exit slice_id : ℕ) (s t : State)
      → end_at_exit p exit slice_id s ≡ some t
      → Closed exit slice_id s t
  unfolding end_at_exit insert_call set_block
  end_at_exit-Closed exit slice_id s t e = elim (Bool-cases (s.block_slice exit == slice_id)) [
    | inl old ↦ at_result (Closed exit slice_id s) s t (rw old at e) (record {
      no_start = refl;
      one_end = ground arith;
      exit_marked = ground (arith, ==_iff (s.block_slice exit) slice_id);
      nodes = λ n. refl;
    })
    | inr new ↦
        let (first, _, e1) = bind-some (p.first_node exit) _ t (rw new at e) in
        fresh_exit (insertion_point p first) new e1
  ]
    where
      fresh_exit :
          (i : ℕ)
          → (s.block_slice exit == slice_id) ≡ false
          → some (insert_call (end_transaction i) (set_block exit slice_id s)) ≡ some t
          → Closed exit slice_id s t
      fresh_exit i new q =
          at_result (Closed exit slice_id s)
            (insert_call (end_transaction i) (set_block exit slice_id s)) t q
            (record {
              no_start = refl;
              one_end = ground arith;
              exit_marked = ground arith;
              nodes = λ n. refl;
            })

  add_transaction_end_for_loop-Closed :
      (fuel preh exit slice_id : ℕ) (loop : List ℕ) (s t : State)
      → loop_exit p fuel loop preh ≡ some exit
      → add_transaction_end_for_loop p fuel preh loop slice_id s ≡ some t
      → Closed exit slice_id s t
  unfolding add_transaction_end_for_loop
  add_transaction_end_for_loop-Closed fuel preh exit slice_id loop s t x e =
      let (u, f, e1) = bind-some (end_at_exit p exit slice_id s) _ t (rw x at e) in
      let c = end_at_exit-Closed exit slice_id s u f in
      let h = preload-Step p fuel preh exit u t e1 in
      record {
        no_start = omega (arith, h.more_starts, c.no_start);
        one_end = omega (arith, h.more_ends, c.one_end);
        exit_marked = preload-keeps_end fuel preh exit u t e1 ∙ c.exit_marked;
        nodes = λ n. h.nodes n ∙ c.nodes n;
      }

  -- What a new transaction for a loop adds.
  pub record LoopOpened (node exit slice_id : ℕ) (s t : State) : Type 0 where
    pub one_start : starts t.calls ≡ suc (starts s.calls)
    pub one_end : ends t.calls ≡ (if s.block_slice exit == slice_id then 0 else 1) + ends s.calls
    pub exit_marked : t.block_slice exit ≡ slice_id
    pub node_marked : t.node_slice node ≡ 888
    pub other_nodes : (n : ℕ) → (node == n) ≡ false → t.node_slice n ≡ s.node_slice n

  -- For a preheader that is not marked yet and objects to load, `placeTransForLoop` inserts one start
  -- and, exactly where the exit of the loop is not marked yet, one end; then both are marked.
  pub place_before-LoopOpened :
      (fuel preh node exit slice_id : ℕ) (loop : List ℕ) (o : Objects) (s t : State)
      → (s.node_slice node == 888) ≡ false
      → no_objects o ≡ false
      → loop_exit p fuel loop preh ≡ some exit
      → place_before p fuel preh node loop slice_id o s ≡ some t
      → LoopOpened node exit slice_id s t
  unfolding place_before add_transaction_start insert_call set_node
  place_before-LoopOpened fuel preh node exit slice_id loop o s t fresh full x e =
      let start = add_transaction_start node (set_node node 888 s) in
      let (u, f, e1) =
        bind-some (add_transaction_end_for_loop p fuel preh loop slice_id start) _ t
          (rw (fresh, full) at e) in
      let c = add_transaction_end_for_loop-Closed fuel preh exit slice_id loop start u x f in
      let m = add_pre_load-Marks node o u in
      at_result (LoopOpened node exit slice_id s) (add_pre_load node o u) t e1 (record {
        one_start = ground (arith, m.quiet.same_starts, c.no_start);
        one_end = m.quiet.same_ends ∙ c.one_end;
        exit_marked = m.slices exit ∙ c.exit_marked;
        node_marked = m.quiet.same_nodes node ∙ c.nodes node ∙ ground arith;
        other_nodes = λ n other. m.quiet.same_nodes n ∙ c.nodes n ∙ ground (arith, other);
      })

  -- Two loops with different preheaders and the same exit block, none of them marked before: two starts of
  -- a transaction are inserted and only one end.
  pub shared_exit_unpaired :
      (fuel preh preh2 node node2 exit slice_id : ℕ) (loop loop2 : List ℕ) (o o2 : Objects)
      (s t u : State)
      → ((s.node_slice node == 888) ≡ false) × ((s.node_slice node2 == 888) ≡ false)
      → ((node == node2) ≡ false) × ((s.block_slice exit == slice_id) ≡ false)
      → (no_objects o ≡ false) × (no_objects o2 ≡ false)
      → (loop_exit p fuel loop preh ≡ some exit) × (loop_exit p fuel loop2 preh2 ≡ some exit)
      → place_before p fuel preh node loop slice_id o s ≡ some t
      → place_before p fuel preh2 node2 loop2 slice_id o2 t ≡ some u
      → (starts u.calls ≡ 2 + starts s.calls) × (ends u.calls ≡ 1 + ends s.calls)
  shared_exit_unpaired fuel preh preh2 node node2 exit slice_id loop loop2 o o2 s t u fresh apart
        full x e f =
      let a =
        place_before-LoopOpened fuel preh node exit slice_id loop o s t fresh.0 full.0 x.0 e in
      let still = a.other_nodes node2 apart.0 in
      let b =
        place_before-LoopOpened fuel preh2 node2 exit slice_id loop2 o2 t u
          (ap (λ n. n == 888) still ∙ fresh.1) full.1 x.1 f in
      (
        omega (arith, a.one_start, b.one_start),
        ground (arith, a.one_end, b.one_end, a.exit_marked, apart.1),
      )

  -- After `placeTransForLoop` has placed a transaction before a node, a further call for that node only
  -- inserts loads.
  pub place_before_once :
      (fuel fuel2 preh node exit slice_id : ℕ) (loop : List ℕ) (o o2 : Objects) (s t : State)
      → (s.node_slice node == 888) ≡ false
      → no_objects o ≡ false
      → loop_exit p fuel loop preh ≡ some exit
      → place_before p fuel preh node loop slice_id o s ≡ some t
      → place_before p fuel2 preh node loop slice_id o2 t ≡ some (add_pre_load node o2 t)
  unfolding place_before
  place_before_once fuel fuel2 preh node exit slice_id loop o o2 s t fresh full x e =
      let a = place_before-LoopOpened fuel preh node exit slice_id loop o s t fresh full x e in
      let marked : (t.node_slice node == 888) ≡ true = ground (arith, a.node_marked) in
      rw marked refl
