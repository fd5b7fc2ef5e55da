-- ===== src/Topmost.antt =====
-- include/dg/Slicing.h: the search for the branch that a transaction is put around, up the immediate
-- dominators and the control dependences, also to the callers.
pub mod Target
pub mod Branch
pub mod Whole
pub mod Ends
mod Examples
use cape_implementation.Prelude.{
  ℕ, zero, suc, Bool, true, false, ◌||◌, ◌&&◌, not, Option, none, some, List, [], ◌∷◌, ◌==◌,
  if◌then◌else◌, elem, bind,
}
use cape_implementation.Transaction.{Program, State, Objects, is_branch}
use cape_implementation.Placement.{process_highest_br, place_trans_for_loop}

-- The control dependences, backwards, of nodes and of blocks; which nodes are functions; whether the
-- dependence graph of the first node has the second one.
pub record Dependences : Type 0 where
  pub rev_control : ℕ → List ℕ
  pub rev_control_blocks : ℕ → List ℕ
  pub is_function : ℕ → Bool
  pub in_graph : ℕ → ℕ → Bool

-- What a search has done: its answer and the state.
abbrev pub Answer : Type 0
Answer = Option (Bool × State)

-- if (first) return true; the rest.
unfoldable pub or_else : Bool × State → (State → Answer) → Answer
or_else (true, s) rest = some (true, s)
or_else (false, s) rest = rest s

-- A recursive call for a block and a node, each of which can be missing.
abbrev pub Visit : Type 0
Visit = Option ℕ → Option ℕ → State → Answer

module _ (p : Program) (d : Dependences) where
  -- The loops over the control dependences of `inst`: those in the same graph are left out.
  unfoldable pub rev_loop : Visit → ℕ → List ℕ → State → Answer
  rev_loop visit inst [] s = some (false, s)
  rev_loop visit inst (node ∷ nodes) s =
      if not (d.is_function node) && d.in_graph inst node
      then rev_loop visit inst nodes s
      else bind (visit (p.block_of node) (some node) s) (λ r. or_else r (rev_loop visit inst nodes))

  unfoldable pub rev_controls : Visit → Option ℕ → State → Answer
  rev_controls visit none s = some (false, s)
  rev_controls visit (some inst) s = rev_loop visit inst (d.rev_control inst) s

  -- A block is looked at only if its slice is not 0.
  unfoldable pub sensitive_block : State → Option ℕ → Option ℕ
  sensitive_block s none = none
  sensitive_block s (some b) = if s.block_slice b == 0 then none else some b

  unfoldable pub sensitive_node : State → Option ℕ → Option ℕ
  sensitive_node s none = none
  sensitive_node s (some n) = if s.node_slice n == 0 then none else some n

  -- The dominator of the block, if it is sensitive.
  unfoldable pub dominator : State → Option ℕ → Option ℕ
  dominator s none = none
  dominator s (some b) = sensitive_block s (p.graph.idom b)

  unfoldable pub visit_dominator : Visit → Option ℕ → State → Answer
  visit_dominator visit none s = some (false, s)
  visit_dominator visit (some cd) s = visit (some cd) none s

  unfoldable pub first_of : Option ℕ → Option ℕ
  first_of none = none
  first_of (some b) = p.first_node b

  -- The transaction for the branch at the end of the dominator.
  unfoldable pub at_dominator : ℕ → ℕ → Objects → Option ℕ → State → Answer
  at_dominator fuel slice_id o none s = some (false, s)
  at_dominator fuel slice_id o (some cd) s = elim (p.last_node cd) [
    | none ↦ some (false, s)
    | some last ↦
        if s.node_slice last == 0 || not (is_branch (p.opcode last))
        then some (false, s)
        else bind (process_highest_br p fuel last slice_id o s) (λ t. some (true, t))
  ]

  -- `processBBlockIDomsAndNodeRevCDs`, with fuel for its recursion and for the preloading; the steps look
  -- at the state where they start, which the searches that found nothing left as it was.
  unfoldable pub search_branch : ℕ → ℕ → ℕ → Objects → Option ℕ → Option ℕ → State → Answer
  search_branch zero fuel slice_id o bb nd s = none
  search_branch (suc rounds) fuel slice_id o bb nd s =
      let visit : Visit = search_branch rounds fuel slice_id o in
      let block = sensitive_block s bb in
      let cd = dominator s block in
      bind (visit_dominator visit cd s) (λ r. or_else r (λ t.
        bind (rev_controls visit (first_of block) t) (λ r. or_else r (λ t.
          bind (rev_controls visit (sensitive_node t nd) t)
            (λ r. or_else r (at_dominator fuel slice_id o cd))))))

  -- The branch at the end of a block that the block depends on, where that is sensitive.
  unfoldable pub immediate_branch : State → Bool → List ℕ → ℕ → Option ℕ
  immediate_branch s is_loop loop cd =
      if s.block_slice cd == 0 || (is_loop && elem cd loop) then none else elim (p.last_node cd) [
        | none ↦ none
        | some last ↦
            if s.node_slice last == 0 || not (is_branch (p.opcode last)) then none else some last
      ]

  -- The first loop of `processBBlockRevCDs`: the block and its branch, if one is found.
  unfoldable pub first_branch : State → Bool → List ℕ → List ℕ → Option (ℕ × ℕ)
  first_branch s is_loop loop [] = none
  first_branch s is_loop loop (cd ∷ cds) =
      let more = first_branch s is_loop loop cds in
      elim (immediate_branch s is_loop loop cd) [ none ↦ more | some last ↦ some (cd, last) ]

  -- What is done with it: the search for a higher branch, or this one.
  unfoldable pub use_branch : ℕ → ℕ → Objects → ℕ → ℕ → State → Answer
  use_branch fuel slice_id o cd last s =
      bind (search_branch fuel fuel slice_id o (some cd) none s) (λ r.
        or_else r (λ t. bind (process_highest_br p fuel last slice_id o t) (λ u. some (true, u))))

  -- The transaction in the block itself where no branch is found.
  unfoldable pub at_block : ℕ → Bool → Bool → ℕ → List ℕ → ℕ → Objects → State → Answer
  at_block fuel is_loop add_dep inst loop slice_id o s =
      if is_loop
      then bind (place_trans_for_loop p fuel inst loop slice_id o s) (λ t. some (false, t))
      else if add_dep
      then bind (process_highest_br p fuel inst slice_id o s) (λ t. some (false, t))
      else some (false, s)

  -- `processBBlockRevCDs`.
  unfoldable pub process_bblock_rev_cds :
      ℕ → Bool → Bool → ℕ → List ℕ → ℕ → Objects → State → Answer
  process_bblock_rev_cds fuel is_loop add_dep bb loop slice_id o s =
      elim (first_branch s is_loop loop (d.rev_control_blocks bb)) [
        | some (cd, last) ↦ use_branch fuel slice_id o cd last s
        | none ↦ bind (p.first_node bb) (λ inst.
            bind (rev_loop (search_branch fuel fuel slice_id o) inst (d.rev_control inst) s)
              (λ r. or_else r (at_block fuel is_loop add_dep inst loop slice_id o)))
      ]
