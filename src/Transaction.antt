-- ===== src/Transaction.antt =====
-- include/dg/Slicing.h: the calls that start, end and prepare a transaction around a branch. Blocks,
-- nodes (instructions), functions and the objects to load are named by numbers.
pub mod Marks
pub mod Region
pub mod Ends
mod Examples
use cape_implementation.Prelude.{
  ℕ, zero, suc, Bool, true, false, ◌||◌, ◌&&◌, not, Option, none, some, List, [], ◌∷◌, ◌++◌, map,
  ◌==◌, if◌then◌else◌, elem, bind,
}
use cape_implementation.Worklist.{Search, push_back, expand}
use cape_implementation.Cfg.{Cfg}
use cape_implementation.Preload.{Bitcode, Names, emit, preload_bb}

pub data Opcode : Type 0 where
  phi : Opcode
  br : Opcode
  other : Opcode

unfoldable pub is_phi : Opcode → Bool
is_phi phi = true
is_phi br = false
is_phi other = false

unfoldable pub is_branch : Opcode → Bool
is_branch phi = false
is_branch br = true
is_branch other = false

-- What the marking reads of the program: the graph and the bitcode, the first and the last node of a
-- block, the block of a node, the instructions of its block that follow a node, and the block of the
-- bitcode and the function that a node belongs to.
pub record Program : Type 0 where
  pub graph : Cfg
  pub code : Bitcode
  pub first_node : ℕ → Option ℕ
  pub last_node : ℕ → Option ℕ
  pub block_of : ℕ → Option ℕ
  pub opcode : ℕ → Opcode
  pub following : ℕ → List ℕ
  pub basic_block : ℕ → ℕ
  pub function_of : ℕ → ℕ

-- The calls that are inserted, each with the instruction it is inserted before.
pub data Call : Type 0 where
  start_transaction : ℕ → Call
  end_transaction : ℕ → Call
  preload_inst_addr : ℕ → ℕ → Call
  iterate_alloc_stack : ℕ → ℕ → Call
  iterate_malloc_set : ℕ → ℕ → Call
  iterate_global : ℕ → ℕ → Call

-- The slices of blocks and of nodes, the set of function names of a node, and the inserted calls, the
-- last one first.
pub record State : Type 0 where
  pub block_slice : ℕ → ℕ
  pub node_slice : ℕ → ℕ
  pub funcs : ℕ → List ℕ
  pub calls : List Call

-- The sets `allocs`, `mallocs` and `globals`.
pub record Objects : Type 0 where
  pub allocs : List ℕ
  pub mallocs : List ℕ
  pub globals : List ℕ

unfoldable pub is_empty : List ℕ → Bool
is_empty [] = true
is_empty (x ∷ xs) = false

unfoldable pub no_objects : Objects → Bool
no_objects o = is_empty o.allocs && is_empty o.mallocs && is_empty o.globals

abbrev pub set_at {ℓ} : {A : Type ℓ} → (ℕ → A) → ℕ → A → ℕ → A
set_at f x v y = if x == y then v else f y

unfoldable pub set_block : ℕ → ℕ → State → State
set_block b v s = record s { block_slice = set_at s.block_slice b v }

unfoldable pub set_node : ℕ → ℕ → State → State
set_node n v s = record s { node_slice = set_at s.node_slice n v }

unfoldable pub insert_call : Call → State → State
insert_call c s = record s { calls = c ∷ s.calls }

-- `addTransactionStart`.
unfoldable pub add_transaction_start : ℕ → State → State
add_transaction_start inst = insert_call (start_transaction inst)

unfoldable pub insert_calls : List Call → State → State
insert_calls [] s = s
insert_calls (c ∷ cs) s = insert_calls cs (insert_call c s)

-- `addPreLoad`.
unfoldable pub add_pre_load : ℕ → Objects → State → State
add_pre_load inst o s = insert_calls (map (iterate_global inst) o.globals) (
    insert_calls (map (iterate_malloc_set inst) o.mallocs)
      (insert_calls (map (iterate_alloc_stack inst) o.allocs) s))

module _ (p : Program) where
  -- The loops that move past the PHI nodes; an instruction without a successor stays.
  unfoldable pub skip_phis : ℕ → List ℕ → ℕ
  skip_phis inst [] = inst
  skip_phis inst (next ∷ rest) = if is_phi (p.opcode inst) then skip_phis next rest else inst

  unfoldable pub insertion_point : ℕ → ℕ
  insertion_point inst = skip_phis inst (p.following inst)

  -- The names that were collected, put into the state: the set of the node `tx_start` and the calls.
  unfoldable pub store_names : ℕ → Names → State → State
  store_names tx_start n s = record s {
    funcs = set_at s.funcs tx_start n.funcs;
    calls = map (preload_inst_addr tx_start) n.emitted ++ s.calls;
  }

  -- The name of the function of the first node of `start`, which `preloadTransactionCode` loads itself.
  unfoldable pub preload_own : ℕ → ℕ → State → State
  preload_own tx_start first s =
      let name = p.function_of first in
      if p.code.is_debug name || elem name (s.funcs tx_start)
      then s
      else store_names tx_start (record { funcs = name ∷ s.funcs tx_start; emitted = name ∷ [] }) s

  -- `preloadBlockCode` for a block that is marked first, if it is not marked yet.
  unfoldable pub preload_block : ℕ → ℕ → ℕ → State → Option State
  preload_block fuel tx_start cur s =
      if s.block_slice cur == 777
      then some s
      else bind (p.first_node cur) (λ first.
        bind
          (preload_bb p.code fuel (p.basic_block first)
            (record { funcs = s.funcs tx_start; emitted = [] }))
          (λ n. some (store_names tx_start n (set_block cur 777 s))))

  -- The loop of `preloadTransactionCode` over the queue.
  unfoldable pub preload_loop : ℕ → ℕ → ℕ → Search → State → Option State
  preload_loop zero depth tx_start q s = elim q.pending [ [] ↦ some s | _ ∷ _ ↦ none ]
  preload_loop (suc fuel) depth tx_start q s = elim q.pending [
    | [] ↦ some s
    | cur ∷ rest ↦
        bind (preload_block depth tx_start cur s)
          (λ t. preload_loop fuel depth tx_start (expand push_back p.graph.successors q cur rest) t)
  ]

  -- The queue and the set at the start.
  abbrev pub region_queue : ℕ → ℕ → Search
  region_queue start end = record { seen = end ∷ start ∷ []; pending = start ∷ []; expanded = [] }

  -- `preloadTransactionCode`; `none` for a failed assertion, a null pointer, or used up fuel.
  unfoldable pub preload_transaction_code : ℕ → ℕ → ℕ → State → Option State
  preload_transaction_code fuel start end s =
      if start == end
      then none
      else if s.block_slice start == 777
      then some s
      else bind (p.last_node start) (λ tx_start. bind (p.first_node start) (λ first.
        preload_loop fuel fuel tx_start (region_queue start end)
          (set_block start 777 (preload_own tx_start first s))))
