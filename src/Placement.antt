-- ===== src/Placement.antt =====
-- include/dg/Slicing.h: where a transaction is put for a branch, and for a loop.
pub mod Exit
pub mod Steps
pub mod Pairing
pub mod Loops
pub mod Address
pub mod Ends
mod Examples
use cape_implementation.Prelude.{
  ℕ, zero, suc, ◌+◌, ◌-◌, ◌%◌, ◌^◌, Bool, true, false, ◌||◌, ◌&&◌, not, Option, none, some, List,
  [], ◌∷◌, ◌==◌, if◌then◌else◌, elem, bind,
}
use cape_implementation.Transaction.{
  Program, State, Objects, end_transaction, is_branch, no_objects, set_block, set_node, insert_call,
  add_transaction_start, add_pre_load, insertion_point, preload_transaction_code,
}

-- `checkAddressDependency`: `addr` is the node of the address operand.
unfoldable pub check_address_dependency : List ℕ → ℕ → ℕ → State → Bool × State
check_address_dependency [] addr slice_id s = (false, s)
check_address_dependency (n ∷ ns) addr slice_id s =
    let rest = check_address_dependency ns addr slice_id s in
    if s.node_slice n == 0 || s.node_slice n == (slice_id + 2 ^ 32 - 1) % 2 ^ 32
    then rest
    else if n == addr
    then (true, set_node n slice_id s)
    else rest

module _ (p : Program) where
  -- `addTransactionEnd` in the block `bb`, before the first node of `place`; nothing is done if that has
  -- no node.
  unfoldable pub end_before : ℕ → ℕ → ℕ → Bool → Option ℕ → State → Option State
  end_before fuel bb place is_br none s = some s
  end_before fuel bb place is_br (some first) s =
      let t = insert_call (end_transaction (insertion_point p first)) s in
      if is_br then preload_transaction_code p fuel bb place t else some t

  -- `addTransactionEnd`: the post-dominator is read in any case, so there must be one.
  unfoldable pub add_transaction_end : ℕ → ℕ → Bool → State → Option State
  add_transaction_end fuel bb is_br s = bind (p.graph.ipostdom bb) (λ place.
      if is_br
      then end_before fuel bb place true (p.first_node place) s
      else end_before fuel bb bb false (p.last_node bb) s)

  -- The loop of `addTransactionEndForLoop`: the first post-dominator outside of the loop.
  unfoldable pub loop_exit : ℕ → List ℕ → ℕ → Option ℕ
  loop_exit zero loop cur = none
  loop_exit (suc fuel) loop cur = elim (p.graph.ipostdom cur) [
    | none ↦ none
    | some d ↦ elim (elem d loop) [ true ↦ loop_exit fuel loop d | false ↦ some d ]
  ]

  -- The end of the transaction at the exit of a loop, once for each exit.
  unfoldable pub end_at_exit : ℕ → ℕ → State → Option State
  end_at_exit exit slice_id s =
      if s.block_slice exit == slice_id
      then some s
      else bind (p.first_node exit) (λ first.
        some (insert_call (end_transaction (insertion_point p first)) (set_block exit slice_id s)))

  -- `addTransactionEndForLoop`.
  unfoldable pub add_transaction_end_for_loop : ℕ → ℕ → List ℕ → ℕ → State → Option State
  add_transaction_end_for_loop fuel preh loop slice_id s =
      bind (loop_exit fuel loop preh)
        (λ exit. bind (end_at_exit exit slice_id s) (preload_transaction_code p fuel preh exit))

  -- `processHighestBr` once the block of the node is known: the new transaction.
  unfoldable pub start_branch : ℕ → ℕ → ℕ → ℕ → State → Option State
  start_branch fuel inst cd slice_id s =
      add_transaction_end fuel cd (is_branch (p.opcode inst))
        (add_transaction_start inst (set_block cd slice_id s))

  unfoldable pub highest_in : ℕ → ℕ → ℕ → ℕ → Objects → State → Option State
  highest_in fuel inst cd slice_id o s =
      if s.block_slice cd == slice_id || s.block_slice cd == 777
      then some (add_pre_load inst o s)
      else if no_objects o
      then some s
      else bind (start_branch fuel inst cd slice_id s) (λ t. some (add_pre_load inst o t))

  -- `processHighestBr`.
  unfoldable pub process_highest_br : ℕ → ℕ → ℕ → Objects → State → Option State
  process_highest_br fuel bn slice_id o s =
      bind (p.block_of bn) (λ cd. highest_in fuel (insertion_point p bn) cd slice_id o s)

  unfoldable pub place_before : ℕ → ℕ → ℕ → List ℕ → ℕ → Objects → State → Option State
  place_before fuel preh node loop slice_id o s =
      if s.node_slice node == 888
      then some (add_pre_load node o s)
      else if no_objects o
      then some s
      else bind
          (add_transaction_end_for_loop fuel preh loop slice_id
            (add_transaction_start node (set_node node 888 s)))
          (λ t. some (add_pre_load node o t))

  -- `placeTransForLoop`.
  unfoldable pub place_trans_for_loop : ℕ → ℕ → List ℕ → ℕ → Objects → State → Option State
  place_trans_for_loop fuel bn loop slice_id o s = bind (p.block_of bn) (λ cd.
      bind (p.graph.idom cd)
        (λ preh. bind (p.last_node preh) (λ node. place_before fuel preh node loop slice_id o s)))
