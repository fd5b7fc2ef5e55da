-- ===== src/Sensitive/Examples.antt =====
-- An access through a pointer to a stack slot, a buffer of the heap and a global variable.
use cape_implementation.Prelude.{
  ℕ, ◌+◌, ◌^◌, ◌≤◌, ◌<◌, ◌≡◌, ◌⊎◌, inl, refl, true, false, none, some, List, [], ◌∷◌, arith,
}
use cape_implementation.Transaction.{Objects}
use cape_implementation.Sensitive.{
  global_variable, stack_slot, malloc_call, Target, push_alloc_stack, pop_alloc_stack,
  insert_malloc_set, Buffers, is_buffered, new_buffer, add_hook, mark_local, add_pop, number_slot,
  number_malloc, mark_option, touch_slot, touch_malloc, touch_global, touch_value, unless_done,
  touch_targets, operands, touch_operands, handle_sensitive_access,
}
use cape_implementation.Sensitive.Numbers.{IsNumbered, targets, handle_sensitive_access_numbers}

abbrev slot_target : Target
slot_target = record { node = 7; value = stack_slot 70 (some 79); local_node = none }

abbrev heap_target : Target
heap_target = record { node = 8; value = malloc_call 80; local_node = some 3 }

abbrev global_target : Target
global_target = record { node = 9; value = global_variable 90 false false false; local_node = none }

abbrev secret_target : Target
secret_target = record { node = 5; value = global_variable 50 false true false; local_node = none }

abbrev sample_targets : ℕ → List Target
sample_targets id = slot_target ∷ heap_target ∷ global_target ∷ slot_target ∷ []

abbrev no_buffers : Buffers
no_buffers = record { alloc_id = 0; buffer = λ t. 0; node_slice = λ n. 1; hooks = [] }

abbrev nothing : Objects
nothing = record { allocs = []; mallocs = []; globals = [] }

abbrev result : Objects × Buffers
result = handle_sensitive_access sample_targets 6 1 nothing no_buffers

objects_found : result.0 ≡ record { allocs = 1 ∷ []; mallocs = 2 ∷ []; globals = 90 ∷ [] }
unfolding handle_sensitive_access touch_operands operands touch_targets unless_done touch_value
    touch_global touch_malloc touch_slot mark_option number_malloc number_slot add_pop mark_local
    add_hook new_buffer is_buffered
objects_found = refl

hooks_inserted :
    result.1.hooks ≡ insert_malloc_set 80 2 ∷ pop_alloc_stack 79 1 ∷ push_alloc_stack 70 1 ∷ []
unfolding handle_sensitive_access touch_operands operands touch_targets unless_done touch_value
    touch_global touch_malloc touch_slot mark_option number_malloc number_slot add_pop mark_local
    add_hook new_buffer is_buffered
hooks_inserted = refl

-- A secret object ends the handler: the objects behind it are not collected.
stops_at_secret :
    (handle_sensitive_access (λ id. secret_target ∷ slot_target ∷ []) 6 0 nothing no_buffers).0
    ≡ nothing
unfolding handle_sensitive_access touch_operands operands touch_targets unless_done touch_value
    touch_global
stops_at_secret = refl

no_buffers-IsNumbered : IsNumbered no_buffers
no_buffers-IsNumbered = record { bounded = λ t. omega arith; distinct = λ t u e. inl refl }

one_operand : operands 1 ≡ 1 ∷ []
unfolding operands
one_operand = refl

few_targets : 0 + targets no_buffers sample_targets (operands 1) < 2 ^ 32
few_targets = rw one_operand (omega arith)

handle_sensitive_access_numbers_example :
    IsNumbered result.1
    × (result.1.alloc_id ≤ 0 + targets no_buffers sample_targets (operands 1))
    × ((t : ℕ) → (no_buffers.buffer t ≡ 0) ⊎ (result.1.buffer t ≡ 0))
handle_sensitive_access_numbers_example =
    handle_sensitive_access_numbers no_buffers sample_targets 6 1 nothing no_buffers-IsNumbered
      few_targets
