-- ===== src/NodesWalk/Follows.antt =====
-- The nodes that the edges of the enabled kinds lead to, and the parts of the walk that enqueue them.
use cape_implementation.Prelude.{
  ℕ, ◌≡◌, refl, ◌∙◌, Bool-cases, inl, inr, Bool, true, false, ◌&&◌, not, List, [], ◌∷◌, ◌++◌, map,
  arith, elem, elem-append, if◌then◌else◌,
}
use cape_implementation.NodesWalk.Ids.{Reached, Adds, Adds-nothing, Adds-then}
use cape_implementation.NodesWalk.{
  Graph, Walking, flag, walk_cd, walk_rev_cd, walk_dd, walk_rev_dd, walk_use, walk_user, walk_id,
  walk_rev_id, walk_bb_cfg, walk_bb_rev_cfg, walk_bb_postdom_frontiers, is_call, is_store,
  address_taken, of_block, run_stages,
}

-- The nodes of some blocks.
abbrev pub all_nodes : (ℕ → List ℕ) → List ℕ → List ℕ
all_nodes nodes [] = []
all_nodes nodes (b ∷ bs) = nodes b ++ all_nodes nodes bs

-- The edges of the enabled kinds, one list after the other.
abbrev pub enabled : ℕ → List (ℕ × List ℕ) → List ℕ
enabled options [] = []
enabled options ((f, xs) ∷ rest) =
    if flag options f then xs ++ enabled options rest else enabled options rest

abbrev pub filter_nodes : (ℕ → Bool) → List ℕ → List ℕ
filter_nodes keep [] = []
filter_nodes keep (x ∷ xs) = if keep x then x ∷ filter_nodes keep xs else filter_nodes keep xs

module _ (g : Graph) where
  -- A data or use edge to such a node is never skipped.
  abbrev pub is_plain : ℕ → Bool
  is_plain t =
      not (is_call (g.kind t)) && not (is_store (g.kind t) && address_taken g (g.stored_targets t))

  abbrev pub may_follow : ℕ → List (ℕ × List ℕ)
  may_follow n =
      (
        walk_cd,
        g.control n ++ all_nodes g.block_nodes (of_block g.control_dependence (g.block_of n)),
      )
      ∷ (
        walk_rev_cd,
        g.rev_control n ++ map g.last_node (of_block g.rev_control_dependence (g.block_of n)),
      )
      ∷ (walk_dd, g.data_edges n)
      ∷ (walk_rev_dd, g.rev_data n)
      ∷ (walk_use, g.uses n)
      ∷ (walk_user, g.users n)
      ∷ (walk_id, g.interference n)
      ∷ (walk_rev_id, g.rev_interference n)
      ∷ (walk_bb_cfg, map g.first_node (of_block g.successors (g.block_of n)))
      ∷ (walk_bb_rev_cfg, map g.last_node (of_block g.predecessors (g.block_of n)))
      ∷ (walk_bb_postdom_frontiers, map g.last_node (of_block g.post_dom_frontiers (g.block_of n)))
      ∷ []

  abbrev pub must_follow : ℕ → List (ℕ × List ℕ)
  must_follow n =
      (walk_cd, g.control n)
      ∷ (
        walk_rev_cd,
        g.rev_control n ++ map g.last_node (of_block g.rev_control_dependence (g.block_of n)),
      )
      ∷ (walk_dd, filter_nodes is_plain (g.data_edges n))
      ∷ (walk_rev_dd, g.rev_data n)
      ∷ (walk_use, filter_nodes is_plain (g.uses n))
      ∷ (walk_user, g.users n)
      ∷ (walk_id, g.interference n)
      ∷ (walk_rev_id, g.rev_interference n)
      ∷ (walk_bb_cfg, map g.first_node (of_block g.successors (g.block_of n)))
      ∷ (walk_bb_rev_cfg, map g.last_node (of_block g.predecessors (g.block_of n)))
      ∷ (walk_bb_postdom_frontiers, map g.last_node (of_block g.post_dom_frontiers (g.block_of n)))
      ∷ []

  unfoldable pub may : ℕ → ℕ → List ℕ
  may options n = enabled options (may_follow n)

  unfoldable pub must : ℕ → ℕ → List ℕ
  must options n = enabled options (must_follow n)

abbrev pub Anything : ℕ → Type 0
Anything x = Unit

-- A part of the walk that enqueues nodes of one list, and all of another.
pub record Follows (run : ℕ) (allowed required : List ℕ) (f : Walking → Walking) : Type 1 where
  pub adds :
      (P : ℕ → Type 0)
      → ((x : ℕ) → elem x allowed ≡ true → P x)
      → (s : Walking) → Adds run P s.pending (f s).pending
  pub reaches : (s : Walking) (x : ℕ) → elem x required ≡ true → Reached run x (f s).pending
  pub keeps : (s : Walking) → (f s).visited ≡ s.visited

module _ (run : ℕ) where
  pub Follows-nothing : Follows run [] [] (λ s. s)
  Follows-nothing = record {
    adds = λ P h s. Adds-nothing run P s.pending;
    reaches = λ s x e. absurd (ground arith);
    keeps = λ s. refl;
  }

  pub Follows-then :
      (a r b q : List ℕ) (f h : Walking → Walking)
      → Follows run a r f
      → Follows run b q h
      → Follows run (a ++ b) (r ++ q) (λ s. h (f s))
  Follows-then a r b q f h first second = record {
    adds = λ P ok s.
        Adds-then run P s.pending (f s).pending (h (f s)).pending
          (first.adds P (λ x e. ok x (ground (arith, elem-append x a b, e))) s)
          (second.adds P (λ x e. ok x (ground (arith, elem-append x a b, e))) (f s));
    reaches = λ s x e. elim (Bool-cases (elem x r)) [
      | inl early ↦ (second.adds Anything (λ y d. tt) (f s)).monotone x (first.reaches s x early)
      | inr late ↦ second.reaches (f s) x (ground (arith, elem-append x r q, e))
    ];
    keeps = λ s. second.keeps (f s) ∙ first.keeps s;
  }

  pub Follows-sub :
      (a r b q : List ℕ) (f : Walking → Walking)
      → ((x : ℕ) → elem x a ≡ true → elem x b ≡ true)
      → ((x : ℕ) → elem x q ≡ true → elem x r ≡ true)
      → Follows run a r f
      → Follows run b q f
  Follows-sub a r b q f wider fewer h = record {
    adds = λ P ok s. h.adds P (λ x e. ok x (wider x e)) s;
    reaches = λ s x e. h.reaches s x (fewer x e);
    keeps = h.keeps;
  }

  -- The stages of one list, against the edges of their kinds.
  pub data Stages
      : List (ℕ × (Walking → Walking)) → List (ℕ × List ℕ) → List (ℕ × List ℕ) → Type 1 where
    no_stage : Stages [] [] []
    one_stage :
        {f : ℕ} {stage : Walking → Walking} {allowed required : List ℕ}
        {later : List (ℕ × (Walking → Walking))} {allow require : List (ℕ × List ℕ)}
        → Follows run allowed required stage
        → Stages later allow require
        → Stages ((f, stage) ∷ later) ((f, allowed) ∷ allow) ((f, required) ∷ require)

  guarded :
      (on : Bool) (a r b q : List ℕ) (f h : Walking → Walking)
      → Follows run a r f
      → Follows run b q h
      → Follows run
          (if on then a ++ b else b)
          (if on then r ++ q else q)
          (λ s. h (if on then f s else s))
  guarded true a r b q f h first second = Follows-then a r b q f h first second
  guarded false a r b q f h first second = second

  pub run_stages-Follows :
      (options : ℕ) {todo : List (ℕ × (Walking → Walking))} {allow require : List (ℕ × List ℕ)}
      → Stages todo allow require
      → Follows run (enabled options allow) (enabled options require) (run_stages options todo)
  unfolding run_stages
  run_stages-Follows options no_stage = Follows-nothing
  run_stages-Follows options
        (one_stage {f} {stage} {allowed} {required} {later} {allow} {require} h hs) =
      guarded (flag options f) allowed required (enabled options allow) (enabled options require)
        stage (run_stages options later) h (run_stages-Follows options hs)
