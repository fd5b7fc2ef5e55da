-- ===== src/Sensitive.antt =====
-- include/dg/Slicing.h: the objects that a sensitive access can touch, and the numbers of the buffers
-- under which the run time finds them. The targets of pointers come from the pointer analysis.
pub mod Numbers
mod Examples
use cape_implementation.Prelude.{
  ℕ, zero, suc, ◌+◌, ◌%◌, ◌^◌, Bool, true, false, ◌||◌, Option, none, some, List, [], ◌∷◌, ◌==◌,
  leb, if◌then◌else◌, insert,
}
use cape_implementation.Transaction.{Objects, set_at}

-- The value behind a target: a global variable with what its attributes and name say ("ecc_sets",
-- "secret", ".str."), a stack slot with the return of its function, a call of malloc, or another one.
pub data Value : Type 0 where
  null_value : Value
  global_variable : ℕ → Bool → Bool → Bool → Value
  stack_slot : ℕ → Option ℕ → Value
  malloc_call : ℕ → Value
  other_value : Value

-- A target of a pointer: its node in the pointer analysis, its value, and the node of the value in the
-- dependence graph of the access, if that has one.
pub record Target : Type 0 where
  pub node : ℕ
  pub value : Value
  pub local_node : Option ℕ

-- The calls that keep the buffers known at run time, with the instruction they are inserted at.
pub data Hook : Type 0 where
  push_alloc_stack : ℕ → ℕ → Hook
  pop_alloc_stack : ℕ → ℕ → Hook
  insert_malloc_set : ℕ → ℕ → Hook

-- `buffer` is the number of the buffer of a target, 0 for none yet.
pub record Buffers : Type 0 where
  pub alloc_id : ℕ
  pub buffer : ℕ → ℕ
  pub node_slice : ℕ → ℕ
  pub hooks : List Hook

unfoldable pub is_buffered : ℕ → Buffers → Bool
is_buffered t m = if m.buffer t == 0 then false else true

-- The next number, for a target that has none.
unfoldable pub new_buffer : ℕ → Buffers → Buffers
new_buffer t m =
    let bid = (m.alloc_id + 1) % 2 ^ 32 in
    record m { alloc_id = bid; buffer = set_at m.buffer t bid }

unfoldable pub add_hook : Hook → Buffers → Buffers
add_hook h m = record m { hooks = h ∷ m.hooks }

unfoldable pub mark_local : ℕ → ℕ → Buffers → Buffers
mark_local slice_id g m = record m { node_slice = set_at m.node_slice g ((slice_id + 2) % 2 ^ 32) }

-- The last call for a stack slot, where its function returns.
unfoldable pub add_pop : Option ℕ → ℕ → Buffers → Buffers
add_pop none bid m = m
add_pop (some ret) bid m = add_hook (pop_alloc_stack ret bid) m

unfoldable pub number_slot : ℕ → ℕ → Option ℕ → Buffers → Buffers
number_slot t slot ret m =
    if is_buffered t m
    then m
    else let n = new_buffer t m in
      add_pop ret n.alloc_id (add_hook (push_alloc_stack slot n.alloc_id) n)

unfoldable pub number_malloc : ℕ → ℕ → Buffers → Buffers
number_malloc t call m =
    if is_buffered t m
    then m
    else let n = new_buffer t m in add_hook (insert_malloc_set call n.alloc_id) n

unfoldable pub mark_option : ℕ → Option ℕ → Buffers → Buffers
mark_option slice_id none m = m
mark_option slice_id (some g) m = mark_local slice_id g m

-- What a target gives: whether the handler returns at once, the objects, and the state.
abbrev pub Step : Type 0
Step = Bool × Objects × Buffers

unfoldable pub touch_slot : ℕ → ℕ → ℕ → Option ℕ → Option ℕ → Objects → Buffers → Step
touch_slot slice_id t slot ret (some g) o m = (false, o, mark_local slice_id g m)
touch_slot slice_id t slot ret none o m =
    let n = number_slot t slot ret m in
    (false, record o { allocs = insert (n.buffer t) o.allocs }, n)

unfoldable pub touch_malloc : ℕ → ℕ → ℕ → Option ℕ → Objects → Buffers → Step
touch_malloc slice_id t call g o m =
    let n = number_malloc t call (mark_option slice_id g m) in
    (false, record o { mallocs = insert (n.buffer t) o.mallocs }, n)

unfoldable pub touch_global : ℕ → Bool → Bool → Bool → Objects → Buffers → Step
touch_global g is_ecc is_secret is_string o m =
    if is_ecc
    then (false, o, m)
    else if is_secret || is_string
    then (true, o, m)
    else (false, record o { globals = insert g o.globals }, m)

-- The body of the loop over the targets of a pointer.
unfoldable pub touch_value : ℕ → ℕ → Option ℕ → Value → Objects → Buffers → Step
touch_value slice_id t local null_value o m = (false, o, m)
touch_value slice_id t local (global_variable g is_ecc is_secret is_string) o m =
    touch_global g is_ecc is_secret is_string o m
touch_value slice_id t local (stack_slot slot ret) o m = touch_slot slice_id t slot ret local o m
touch_value slice_id t local (malloc_call call) o m = touch_malloc slice_id t call local o m
touch_value slice_id t local other_value o m = (false, o, m)

-- if the handler has returned, skip the rest.
unfoldable pub unless_done : Step → (Objects → Buffers → Step) → Step
unless_done (true, o, m) rest = (true, o, m)
unless_done (false, o, m) rest = rest o m

unfoldable pub touch_targets : ℕ → List Target → Objects → Buffers → Step
touch_targets slice_id [] o m = (false, o, m)
touch_targets slice_id (t ∷ ts) o m =
    unless_done (touch_value slice_id t.node t.local_node t.value o m) (touch_targets slice_id ts)

-- The operands that `opIdx` stands for: itself, or the first two.
unfoldable pub operands : ℕ → List ℕ
operands op_idx = if leb op_idx 1 then op_idx ∷ [] else 0 ∷ 1 ∷ []

unfoldable pub touch_operands : (ℕ → List Target) → ℕ → List ℕ → Objects → Buffers → Step
touch_operands points_to slice_id [] o m = (false, o, m)
touch_operands points_to slice_id (id ∷ ids) o m =
    unless_done (touch_targets slice_id (points_to id) o m) (touch_operands points_to slice_id ids)

-- `handlePreloadingForSensitiveAccesses`; `points_to` gives the targets of each operand of the access.
unfoldable pub handle_sensitive_access :
    (ℕ → List Target) → ℕ → ℕ → Objects → Buffers → Objects × Buffers
handle_sensitive_access points_to slice_id op_idx o m =
    let (_, objects, buffers) = touch_operands points_to slice_id (operands op_idx) o m in
    (objects, buffers)
