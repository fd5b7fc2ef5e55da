-- ===== src/Marking.antt =====
-- include/dg/Slicing.h: the visit of a node, in the pass that marks what depends on a secret (0), the one
-- for loops (1) and the one for accesses (2).
pub mod Balance
pub mod First
mod Examples
use cape_implementation.Prelude.{
  ℕ, zero, suc, ◌+◌, ◌-◌, ◌*◌, ◌%◌, ◌^◌, Bool, true, false, ◌||◌, ◌&&◌, not, Option, none, some,
  List, [], ◌∷◌, ◌++◌, ◌==◌, if◌then◌else◌, elem, bind,
}
use cape_implementation.Cfg.{get_br_loop_blocks, is_cond_exit}
use cape_implementation.Transaction.{
  Program, State, Objects, is_branch, set_at, set_block, set_node,
}
use cape_implementation.Placement.{check_address_dependency}
use cape_implementation.Topmost.{Dependences, process_bblock_rev_cds}
use cape_implementation.Sensitive.{
  Value, null_value, global_variable, stack_slot, malloc_call, other_value, Target, Buffers,
  handle_sensitive_access,
}

pub data Builtin : Type 0 where
  memcpy : Builtin
  memset : Builtin

-- What the visits read of the nodes: which are instructions, the pointer operand of a load or a store, the
-- calls of memcpy and memset, the targets and the nodes of operands, the data dependences and the users,
-- the nodes of a block, the dependence graph of a node and the entry of a graph, and the conditional
-- branches.
pub record Accesses : Type 0 where
  pub is_instruction : ℕ → Bool
  pub access : ℕ → Option ℕ
  pub builtin : ℕ → Option Builtin
  pub points_to : ℕ → ℕ → List Target
  pub operand : ℕ → ℕ → ℕ
  pub rev_data : ℕ → List ℕ
  pub users : ℕ → List ℕ
  pub nodes_of : ℕ → List ℕ
  pub graph_of : ℕ → Option ℕ
  pub entry : ℕ → ℕ
  pub is_conditional : ℕ → Bool
  pub forward : Bool

-- The marking: the slices and inserted calls, the numbers of buffers (whose slices of nodes are those of
-- the state), the slices of the dependence graphs, the nodes that were enqueued, the last one first, and
-- the blocks that were marked.
pub record Marking : Type 0 where
  pub state : State
  pub buffers : Buffers
  pub graph_slice : ℕ → ℕ
  pub enqueued : List ℕ
  pub marked_blocks : List ℕ

-- The arithmetic of uint32_t.
abbrev pub wrap : ℕ → ℕ
wrap n = n % 2 ^ 32

abbrev pub slice_of : ℕ → ℕ
slice_of run = wrap (wrap (run + 2 ^ 32 - 1) * 5 + 1)

abbrev pub no_objects_yet : Objects
no_objects_yet = record { allocs = []; mallocs = []; globals = [] }

module _ (p : Program) (d : Dependences) (a : Accesses) where
  -- The call of the handler for a node, its marks put into the state.
  unfoldable pub handle_node : ℕ → ℕ → ℕ → Objects → Marking → Objects × Marking
  handle_node slice_id n op o m =
      let b = record m.buffers { node_slice = m.state.node_slice } in
      let (found, after) = handle_sensitive_access (a.points_to n) slice_id op o b in
      (
        found,
        record m { state = record m.state { node_slice = after.node_slice }; buffers = after },
      )

  -- The tests for an address dependency, one after the other until one answers true.
  unfoldable pub check_addresses : ℕ → ℕ → List ℕ → State → Bool × State
  check_addresses slice_id n [] s = (false, s)
  check_addresses slice_id n (op ∷ ops) s =
      let addr = a.operand n op in
      let (by_data, t) = check_address_dependency (a.rev_data n) addr (wrap (slice_id + 3)) s in
      if by_data
      then (true, t)
      else let (by_user, u) = check_address_dependency (a.users n) addr (wrap (slice_id + 3)) t in
        if by_user then (true, u) else check_addresses slice_id n ops u

  -- `processBBlockRevCDs` for the block of a node, if it has one.
  unfoldable pub process_block :
      ℕ → Bool → Bool → Option ℕ → List ℕ → ℕ → Objects → State → Option State
  process_block fuel is_loop add_dep none loop slice_id o s = some s
  process_block fuel is_loop add_dep (some b) loop slice_id o s =
      bind (process_bblock_rev_cds p d fuel is_loop add_dep b loop slice_id o s) (λ r. some r.1)

  -- A sensitive access, `op` being the operand for the handler and `ops` those that are tested.
  unfoldable pub mark_access : ℕ → ℕ → ℕ → ℕ → List ℕ → Marking → Option Marking
  mark_access fuel slice_id n op ops m =
      let started = record m { state = set_node n (wrap (slice_id + 1)) m.state } in
      let (o, found) = handle_node slice_id n op no_objects_yet started in
      let (add_dep, s) = check_addresses slice_id n ops found.state in
      bind (process_block fuel false add_dep (p.block_of n) [] (wrap (slice_id + 4)) o s)
        (λ t. some (record found { state = t }))

  unfoldable pub mark_builtin : ℕ → ℕ → ℕ → Option Builtin → Marking → Option Marking
  mark_builtin fuel slice_id n none m = some m
  mark_builtin fuel slice_id n (some memcpy) m = mark_access fuel slice_id n 9 (0 ∷ 1 ∷ []) m
  mark_builtin fuel slice_id n (some memset) m = mark_access fuel slice_id n 0 (0 ∷ []) m

  -- `markSlice` in pass 2, for a node that is an instruction and sensitive; it answers true.
  unfoldable pub mark_pass_two : ℕ → ℕ → ℕ → Marking → Option Marking
  mark_pass_two fuel slice_id n m =
      if m.state.node_slice n == 0 || not (a.is_instruction n) then some m else elim (a.access n) [
        | some op ↦ mark_access fuel slice_id n op (op ∷ []) m
        | none ↦ mark_builtin fuel slice_id n (a.builtin n) m
      ]

  -- The visits of some nodes in pass 2, one after the other.
  unfoldable pub visit_all : ℕ → ℕ → List ℕ → Marking → Option Marking
  visit_all fuel slice_id [] m = some m
  visit_all fuel slice_id (n ∷ ns) m =
      bind (mark_pass_two fuel slice_id n m) (visit_all fuel slice_id ns)

  -- The nodes of a loop in pass 1: what they access is collected, then they are no longer sensitive.
  unfoldable pub clear_node : ℕ → ℕ → Objects × Marking → Objects × Marking
  clear_node slice_id n (o, m) =
      let (found, after) : Objects × Marking = elim (a.access n) [
        | none ↦ (o, m)
        | some op ↦ handle_node slice_id n op o m
      ] in
      (found, record after { state = set_node n 0 after.state })

  unfoldable pub clear_nodes : ℕ → List ℕ → Objects × Marking → Objects × Marking
  clear_nodes slice_id [] r = r
  clear_nodes slice_id (n ∷ ns) r = clear_nodes slice_id ns (clear_node slice_id n r)

  unfoldable pub clear_blocks : ℕ → List ℕ → Objects × Marking → Objects × Marking
  clear_blocks slice_id [] r = r
  clear_blocks slice_id (b ∷ bs) r =
      clear_blocks slice_id bs (clear_nodes slice_id (a.nodes_of b) r)

  -- The loop of a branch that is one of its conditional exits; `some none` where there is none, or the
  -- branch has no block.
  unfoldable pub exited_loop : ℕ → ℕ → Option (Option (ℕ × List ℕ))
  exited_loop fuel n = elim (p.block_of n) [
    | none ↦ some none
    | some b ↦ bind (get_br_loop_blocks p.graph fuel b) (λ found. elim found [
      | none ↦ some none
      | some (header, loop) ↦
          some (if elem b loop && is_cond_exit p.graph b loop then some (header, loop) else none)
    ])
  ]

  -- `markSlice` in pass 1.
  unfoldable pub mark_pass_one : ℕ → ℕ → ℕ → Marking → Option Marking
  mark_pass_one fuel slice_id n m =
      if m.state.node_slice n == 0 || not (a.is_instruction n) || not (is_branch (p.opcode n))
      then some m
      else bind (exited_loop fuel n) (λ found. elim found [
        | none ↦ some m
        | some (header, loop) ↦
            let (o, cleared) = clear_blocks slice_id loop (no_objects_yet, m) in
            bind
              (process_block fuel true false (some header) loop (wrap (slice_id + 4)) o
                cleared.state)
              (λ t. some (record cleared { state = t }))
      ])

-- A target is a global variable with the attribute "secret".
unfoldable pub is_secret_value : Value → Bool
is_secret_value null_value = false
is_secret_value (global_variable g is_ecc is_secret is_string) = is_secret
is_secret_value (stack_slot slot ret) = false
is_secret_value (malloc_call call) = false
is_secret_value other_value = false

unfoldable pub has_secret : List Target → Bool
has_secret [] = false
has_secret (t ∷ ts) = is_secret_value t.value || has_secret ts

unfoldable pub enqueue : ℕ → Marking → Marking
enqueue n m = record m { enqueued = n ∷ m.enqueued }

-- The nodes of a loop that are not marked yet are enqueued.
unfoldable pub enqueue_nodes : List ℕ → Marking → Marking
enqueue_nodes [] m = m
enqueue_nodes (n ∷ ns) m = enqueue_nodes ns (if m.state.node_slice n == 0 then enqueue n m else m)

module _ (p : Program) (d : Dependences) (a : Accesses) where
  unfoldable pub enqueue_blocks : List ℕ → Marking → Marking
  enqueue_blocks [] m = m
  enqueue_blocks (b ∷ bs) m = enqueue_blocks bs (enqueue_nodes (a.nodes_of b) m)

  unfoldable pub enqueue_loop : Option (ℕ × List ℕ) → Marking → Marking
  enqueue_loop none m = m
  enqueue_loop (some (header, loop)) m = enqueue_blocks loop m

  -- An access of a secret object.
  unfoldable pub reads_secret : ℕ → Option ℕ → Bool
  reads_secret n none = false
  reads_secret n (some op) = has_secret (a.points_to n op)

  unfoldable pub mark_block : ℕ → Option ℕ → Marking → Marking
  mark_block slice_id none m = m
  mark_block slice_id (some b) m = record m {
    state = set_block b slice_id m.state;
    marked_blocks = if a.forward then b ∷ m.marked_blocks else m.marked_blocks;
  }

  unfoldable pub mark_graph : ℕ → Option ℕ → Marking → Marking
  mark_graph slice_id none m = m
  mark_graph slice_id (some g) m =
      let n = record m { graph_slice = set_at m.graph_slice g slice_id } in
      if a.forward then n else enqueue (a.entry g) n

  -- The marks of a node that was not marked: itself, its block, its graph.
  unfoldable pub mark_node : ℕ → ℕ → Marking → Bool × Marking
  mark_node slice_id n m = (
    a.is_conditional n,
    mark_graph slice_id (a.graph_of n)
        (mark_block slice_id (p.block_of n) (record m { state = set_node n slice_id m.state })),
  )

  -- `markSlice` in pass 0, with its answer.
  unfoldable pub mark_pass_zero : ℕ → ℕ → ℕ → Marking → Option (Bool × Marking)
  mark_pass_zero fuel slice_id n m =
      if not (m.state.node_slice n == 0) || (a.is_instruction n && reads_secret n (a.access n))
      then some (false, m)
      else if a.is_instruction n && is_branch (p.opcode n)
      then bind (exited_loop p d a fuel n)
          (λ found. some (mark_node slice_id n (enqueue_loop found m)))
      else some (mark_node slice_id n m)
