-- ===== src/Marking/Examples.antt =====
-- Visits of the nodes of a small program.
use cape_implementation.Prelude.{
  ℕ, ◌+◌, ◌*◌, ◌≤◌, ◌≡◌, refl, Bool, true, false, Option, none, some, List, [], ◌∷◌, ◌==◌,
  if◌then◌else◌, length,
}
use cape_implementation.Placement.{
  process_highest_br, highest_in, start_branch, add_transaction_end, end_before,
}
use cape_implementation.Topmost.{
  process_bblock_rev_cds, first_branch, immediate_branch, use_branch, at_block, search_branch,
  at_dominator, visit_dominator, first_of, dominator, sensitive_block, sensitive_node, rev_controls,
  rev_loop, or_else,
}
use cape_implementation.Preload.{preload_bb, each, preload_call, emit}
use cape_implementation.Worklist.{expand, offer_all, offer}
use cape_implementation.Transaction.{
  set_node, no_objects, is_empty, add_transaction_start, insertion_point, skip_phis, is_phi,
  is_branch, insert_call, add_pre_load, insert_calls, preload_transaction_code, preload_loop,
  preload_block, preload_own, store_names, set_block,
}
use cape_implementation.Transaction.Marks.{starts, ends}
use cape_implementation.Cfg.{
  collect_loop_blocks, on_idom_chain, back_edge, loop_of, br_loop_from, get_br_loop_blocks,
  exits_loop, is_cond_exit,
}
use cape_implementation.Worklist.{explore}
use cape_implementation.Placement.{check_address_dependency}
use cape_implementation.Placement.Steps.{HasNodes}
use cape_implementation.Sensitive.{
  Target, stack_slot, handle_sensitive_access, touch_operands, operands, touch_targets, unless_done,
  touch_value, touch_global, touch_malloc, touch_slot, mark_option, number_malloc, number_slot,
  add_pop, mark_local, add_hook, new_buffer, is_buffered,
}
use cape_implementation.Sample.{sample, sample_dependences, marked_with}
use cape_implementation.Marking.{
  Accesses, Marking, handle_node, check_addresses, process_block, mark_access, mark_builtin,
  mark_pass_two, visit_all, exited_loop, is_secret_value, has_secret, enqueue, enqueue_nodes,
  enqueue_blocks, enqueue_loop, reads_secret, mark_block, mark_graph, mark_node, mark_pass_zero,
}
use cape_implementation.Marking.Balance.{visit_all_balanced}

abbrev visited : List ℕ
visited = 4 ∷ 5 ∷ []

abbrev slot_target : Target
slot_target = record { node = 7; value = stack_slot 70 (some 79); local_node = none }

-- Node 4 is a load from a stack slot.
abbrev sample_accesses : Accesses
sample_accesses = record {
  is_instruction = λ n. true;
  access = λ n. if n == 4 then some 0 else none;
  builtin = λ n. none;
  points_to = λ n op. slot_target ∷ [];
  operand = λ n op. 3;
  rev_data = λ n. 3 ∷ [];
  users = λ n. [];
  nodes_of = λ b. (2 * b) ∷ (2 * b + 1) ∷ [];
  graph_of = λ n. some 0;
  entry = λ g. 100;
  is_conditional = λ n. n == 3;
  forward = false;
}

abbrev before : ℕ → Marking
before v = record {
  state = marked_with v;
  buffers = record { alloc_id = 0; buffer = λ t. 0; node_slice = λ n. 0; hooks = [] };
  graph_slice = λ g. 0;
  enqueued = [];
  marked_blocks = [];
}

sample-HasNodes : HasNodes sample
sample-HasNodes = record { has_first = λ b. (2 * b, refl); has_last = λ b. (2 * b + 1, refl) }

abbrev result : Option Marking → Marking
result none = before 0
result (some m) = m

abbrev after_accesses : Marking
after_accesses = result (visit_all sample sample_dependences sample_accesses 5 6 visited (before 1))

visits :
    visit_all sample sample_dependences sample_accesses 5 6 visited (before 1) ≡ some after_accesses
unfolding visit_all mark_pass_two mark_builtin mark_access handle_node check_addresses
    check_address_dependency process_block set_node process_bblock_rev_cds first_branch
    immediate_branch use_branch at_block search_branch at_dominator visit_dominator first_of
    dominator sensitive_block sensitive_node rev_controls rev_loop or_else process_highest_br
    highest_in start_branch add_transaction_end end_before no_objects is_empty add_transaction_start
    insertion_point skip_phis is_phi is_branch insert_call add_pre_load insert_calls
    preload_transaction_code preload_loop preload_block preload_own store_names set_block preload_bb
    each preload_call emit expand offer_all offer handle_sensitive_access touch_operands operands
    touch_targets unless_done touch_value touch_global touch_malloc touch_slot mark_option
    number_malloc number_slot add_pop mark_local add_hook new_buffer is_buffered
visits = refl

one_transaction : starts after_accesses.state.calls ≡ 1
unfolding visit_all mark_pass_two mark_builtin mark_access handle_node check_addresses
    check_address_dependency process_block set_node process_bblock_rev_cds first_branch
    immediate_branch use_branch at_block search_branch at_dominator visit_dominator first_of
    dominator sensitive_block sensitive_node rev_controls rev_loop or_else process_highest_br
    highest_in start_branch add_transaction_end end_before no_objects is_empty add_transaction_start
    insertion_point skip_phis is_phi is_branch insert_call add_pre_load insert_calls
    preload_transaction_code preload_loop preload_block preload_own store_names set_block preload_bb
    each preload_call emit expand offer_all offer handle_sensitive_access touch_operands operands
    touch_targets unless_done touch_value touch_global touch_malloc touch_slot mark_option
    number_malloc number_slot add_pop mark_local add_hook new_buffer is_buffered
one_transaction = refl

abbrev marking : Option (Bool × Marking) → Marking
marking none = before 0
marking (some r) = r.1

abbrev after_branch : Marking
after_branch = marking (mark_pass_zero sample sample_dependences sample_accesses 5 6 3 (before 0))

marks_branch :
    mark_pass_zero sample sample_dependences sample_accesses 5 6 3 (before 0)
    ≡ some (true, after_branch)
unfolding mark_pass_zero mark_node mark_graph mark_block reads_secret has_secret is_secret_value
    enqueue_loop enqueue_blocks enqueue_nodes enqueue exited_loop get_br_loop_blocks br_loop_from
    back_edge on_idom_chain loop_of collect_loop_blocks explore expand offer_all offer is_cond_exit
    exits_loop set_block set_node is_branch
marks_branch = refl

loop_enqueued : after_branch.enqueued ≡ 100 ∷ 3 ∷ 2 ∷ 5 ∷ 4 ∷ []
unfolding mark_pass_zero mark_node mark_graph mark_block reads_secret has_secret is_secret_value
    enqueue_loop enqueue_blocks enqueue_nodes enqueue exited_loop get_br_loop_blocks br_loop_from
    back_edge on_idom_chain loop_of collect_loop_blocks explore expand offer_all offer is_cond_exit
    exits_loop set_block set_node is_branch
loop_enqueued = refl

visit_all_balanced_example :
    (k : ℕ) × (k ≤ length visited)
    × (starts after_accesses.state.calls ≡ k + starts (before 1).state.calls)
    × (ends after_accesses.state.calls ≡ k + ends (before 1).state.calls)
visit_all_balanced_example =
    visit_all_balanced sample sample_dependences sample_accesses sample-HasNodes 5 6 visited
      (before 1) after_accesses visits
