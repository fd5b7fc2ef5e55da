-- ===== src/NodesWalk/Stages.antt =====
-- The part of the walk that follows the edges of a node: which nodes it may enqueue, and which it has
-- to enqueue.
use cape_implementation.Prelude.{
  ℕ, ◌≡◌, refl, sym, ap, ◌∙◌, Bool-cases, inl, inr, Bool, true, false, List, [], ◌∷◌, ◌++◌, map,
  arith, ◌==◌, ==_iff, elem, elem-append, if◌then◌else◌,
}
use cape_implementation.Queue.Once.{IsContainer}
use cape_implementation.NodesWalk.Ids.{
  Adds-nothing, enqueue-Adds, enqueue-Reached, enqueue_all-Adds, enqueue_all-Reached,
}
use cape_implementation.NodesWalk.{
  Graph, EdgeName, cd_name, dd_name, use_name, user_name, id_name, bblock_cd_name, Walking, skips,
  note_parent, enqueue_node, process_edge, process_edges, process_plain_edges, of_block,
  process_bblock_rev_cds, process_blocks, process_bblock_cds, process_bblock_cfg,
  process_bblock_rev_cfg, process_bblock_post_dom_frontiers, process_cd, process_rev_cd, stages,
  run_stages, process_node,
}
use cape_implementation.NodesWalk.Follows.{
  all_nodes, filter_nodes, may_follow, must_follow, may, must, Anything, Follows, Follows-nothing,
  Follows-then, Follows-sub, Stages, no_stage, one_stage, run_stages-Follows,
}
use cape_implementation.NodesWalk.Skips.{note_parent_keeps, is_sure, skips-is_sure}

module _ (g : Graph) where
  module _ (push : ℕ → List ℕ → List ℕ) (law : IsContainer push) (run : ℕ) where
    process_edge-Follows :
        (rt : EdgeName) (n cur : ℕ)
        → Follows run
            (cur ∷ [])
            (filter_nodes (is_sure g rt) (cur ∷ []))
            (process_edge push g run rt n cur)
    unfolding process_edge enqueue_node
    process_edge-Follows rt n cur = record {
      adds = λ P h s. elim (Bool-cases (skips g rt n cur (note_parent g rt n cur s))) [
        | inl skipped ↦
            rw (skipped, (note_parent_keeps g rt n cur s).0) (Adds-nothing run P s.pending)
        | inr kept ↦
            rw (kept, (note_parent_keeps g rt n cur s).0)
              (enqueue-Adds run P push law cur s.pending (h cur (ground arith)))
      ];
      reaches = λ s x e.
          let sure : is_sure g rt cur ≡ true × cur ≡ x = ground (arith, e, ==_iff cur x) in
          let kept = skips-is_sure g rt n cur (note_parent g rt n cur s) sure.0 in
          rw (kept, (note_parent_keeps g rt n cur s).0, sym sure.1)
            (enqueue-Reached run Anything push law cur s.pending);
      keeps = λ s. elim (Bool-cases (skips g rt n cur (note_parent g rt n cur s))) [
        | inl skipped ↦ rw skipped (note_parent_keeps g rt n cur s).1
        | inr kept ↦ rw kept (note_parent_keeps g rt n cur s).1
      ];
    }

    process_edges-Follows :
        (rt : EdgeName) (n : ℕ) (xs : List ℕ)
        → Follows run xs (filter_nodes (is_sure g rt) xs) (process_edges push g run rt n xs)
    unfolding process_edges
    process_edges-Follows rt n [] = Follows-nothing run
    process_edges-Follows rt n (cur ∷ xs) =
        Follows-sub run (cur ∷ xs)
          (filter_nodes (is_sure g rt) (cur ∷ []) ++ filter_nodes (is_sure g rt) xs) (cur ∷ xs)
          (filter_nodes (is_sure g rt) (cur ∷ xs))
          (λ s. process_edges push g run rt n xs (process_edge push g run rt n cur s)) (λ x e. e)
          (λ x e. ground (arith, e))
          (Follows-then run (cur ∷ []) (filter_nodes (is_sure g rt) (cur ∷ [])) xs
            (filter_nodes (is_sure g rt) xs) (process_edge push g run rt n cur)
            (process_edges push g run rt n xs) (process_edge-Follows rt n cur)
            (process_edges-Follows rt n xs))

    pub process_plain_edges-Follows :
        (xs : List ℕ) → Follows run xs xs (process_plain_edges push g run xs)
    unfolding process_plain_edges
    process_plain_edges-Follows xs = record {
      adds = λ P h s. enqueue_all-Adds run P push law xs s.pending h;
      reaches = λ s x e. enqueue_all-Reached run Anything push law xs s.pending x (λ y d. tt) e;
      keeps = λ s. refl;
    }

    process_blocks-Follows :
        (n : ℕ) (bs : List ℕ)
        → Follows run (all_nodes g.block_nodes bs) [] (process_blocks push g run n bs)
    unfolding process_blocks
    process_blocks-Follows n [] = Follows-nothing run
    process_blocks-Follows n (b ∷ bs) =
        Follows-then run (g.block_nodes b) [] (all_nodes g.block_nodes bs) []
          (process_edges push g run bblock_cd_name n (g.block_nodes b))
          (process_blocks push g run n bs)
          (Follows-sub run (g.block_nodes b)
            (filter_nodes (is_sure g bblock_cd_name) (g.block_nodes b)) (g.block_nodes b) []
            (process_edges push g run bblock_cd_name n (g.block_nodes b)) (λ x e. e)
            (λ x e. absurd (ground arith))
            (process_edges-Follows bblock_cd_name n (g.block_nodes b)))
          (process_blocks-Follows n bs)

    block_edges :
        (xs ys : List ℕ)
        → Follows run
            (xs ++ ys)
            (xs ++ ys)
            (λ s. process_plain_edges push g run ys (process_plain_edges push g run xs s))
    block_edges xs ys =
        Follows-then run xs xs ys ys (process_plain_edges push g run xs)
          (process_plain_edges push g run ys) (process_plain_edges-Follows xs)
          (process_plain_edges-Follows ys)

    sure_all :
        (keep : ℕ → Bool) (xs : List ℕ) (x : ℕ)
        → ((y : ℕ) → keep y ≡ true)
        → elem x xs ≡ true
        → elem x (filter_nodes keep xs) ≡ true
    sure_all keep [] x all e = absurd (ground arith)
    sure_all keep (y ∷ xs) x all e = ground (arith, sure_all keep xs x all, all y, e)

    -- The edges of a name that is never skipped.
    whole_edges :
        (rt : EdgeName) (n : ℕ) (xs : List ℕ)
        → ((y : ℕ) → is_sure g rt y ≡ true)
        → Follows run xs xs (process_edges push g run rt n xs)
    whole_edges rt n xs e =
        Follows-sub run xs (filter_nodes (is_sure g rt) xs) xs xs (process_edges push g run rt n xs)
          (λ x q. q) (λ x q. sure_all (is_sure g rt) xs x e q) (process_edges-Follows rt n xs)

    process_cd-Follows :
        (n : ℕ) (marked : Bool)
        → Follows run
            (g.control n ++ all_nodes g.block_nodes (of_block g.control_dependence (g.block_of n)))
            (g.control n)
            (process_cd push g run n marked)
    unfolding process_cd process_bblock_cds
    process_cd-Follows n true =
        Follows-sub run
          (g.control n ++ all_nodes g.block_nodes (of_block g.control_dependence (g.block_of n)))
          (g.control n ++ [])
          (g.control n ++ all_nodes g.block_nodes (of_block g.control_dependence (g.block_of n)))
          (g.control n) (process_cd push g run n true) (λ x e. e)
          (λ x e. ground (arith, elem-append x (g.control n) [], e))
          (Follows-then run (g.control n) (g.control n)
            (all_nodes g.block_nodes (of_block g.control_dependence (g.block_of n))) []
            (process_edges push g run cd_name n (g.control n)) (process_bblock_cds push g run n)
            (whole_edges cd_name n (g.control n) (λ y. refl))
            (process_blocks-Follows n (of_block g.control_dependence (g.block_of n))))
    process_cd-Follows n false =
        Follows-sub run (g.control n) (g.control n)
          (g.control n ++ all_nodes g.block_nodes (of_block g.control_dependence (g.block_of n)))
          (g.control n) (process_cd push g run n false)
          (λ x e. ground (
            arith,
            elem-append x (g.control n)
                (all_nodes g.block_nodes (of_block g.control_dependence (g.block_of n))),
            e,
          ))
          (λ x e. e) (whole_edges cd_name n (g.control n) (λ y. refl))

    stages-Follows :
        (n : ℕ) (marked : Bool)
        → Stages run (stages push g run n marked) (may_follow g n) (must_follow g n)
    unfolding process_rev_cd process_bblock_rev_cds process_bblock_cfg process_bblock_rev_cfg
        process_bblock_post_dom_frontiers
    stages-Follows n marked = one_stage (process_cd-Follows n marked) (
        one_stage
          (block_edges (g.rev_control n)
            (map g.last_node (of_block g.rev_control_dependence (g.block_of n))))
          (one_stage (process_edges-Follows dd_name n (g.data_edges n)) (
            one_stage (process_plain_edges-Follows (g.rev_data n)) (
              one_stage (process_edges-Follows use_name n (g.uses n)) (
                one_stage (whole_edges user_name n (g.users n) (λ y. refl)) (
                  one_stage (whole_edges id_name n (g.interference n) (λ y. refl)) (
                    one_stage (process_plain_edges-Follows (g.rev_interference n)) (
                      one_stage
                        (process_plain_edges-Follows
                          (map g.first_node (of_block g.successors (g.block_of n))))
                        (one_stage
                          (process_plain_edges-Follows
                            (map g.last_node (of_block g.predecessors (g.block_of n))))
                          (one_stage
                            (process_plain_edges-Follows
                              (map g.last_node (of_block g.post_dom_frontiers (g.block_of n))))
                            no_stage))))))))))

    -- No flag is set in the options 0.
    no_options : (n : ℕ) → may g 0 n ≡ [] × must g 0 n ≡ []
    unfolding may must
    no_options n = (refl, refl)

    all_stages-Follows :
        (options n : ℕ) (marked : Bool)
        → Follows run
            (may g options n)
            (must g options n)
            (run_stages options (stages push g run n marked))
    unfolding may must
    all_stages-Follows options n marked = run_stages-Follows run options (stages-Follows n marked)

    unless :
        (b : Bool) (a r : List ℕ) (f : Walking → Walking)
        → (b ≡ true → Follows run a r (λ s. s))
        → Follows run a r f
        → Follows run a r (λ s. if b then s else f s)
    unless true a r f stay go = stay refl
    unless false a r f stay go = go

    pub process_node-Follows :
        (options n : ℕ) (marked : Bool)
        → Follows run
            (may g options n)
            (must g options n)
            (process_node push g run options n marked)
    unfolding process_node
    process_node-Follows options n marked =
        unless (options == 0) (may g options n) (must g options n)
          (run_stages options (stages push g run n marked))
          (λ e.
            let none_set = (==_iff options 0).0 e in
            let allowed : may g options n ≡ [] = ap (λ o. may g o n) none_set ∙ (no_options n).0 in
            let required : must g options n ≡ [] =
              ap (λ o. must g o n) none_set ∙ (no_options n).1 in
            rw (allowed, required) (Follows-nothing run))
          (all_stages-Follows options n marked)
