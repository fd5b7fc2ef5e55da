-- ===== src/Placement/Examples.antt =====
-- The placing of transactions at a small program.
use cape_implementation.Prelude.{
  ℕ, zero, suc, ◌+◌, ◌*◌, ◌<◌, ◌≡◌, refl, true, false, some, List, [], ◌∷◌, arith,
}
use cape_implementation.Worklist.{expand, offer_all, offer}
use cape_implementation.Preload.{emit, each, preload_call, preload_bb}
use cape_implementation.Transaction.{
  State, is_phi, is_branch, is_empty, no_objects, set_block, set_node, insert_call,
  add_transaction_start, insert_calls, add_pre_load, skip_phis, insertion_point, store_names,
  preload_own, preload_block, preload_loop, preload_transaction_code,
}
use cape_implementation.Sample.{down, sample, marked_with, some_objects, state_of}
use cape_implementation.Placement.{
  end_before, add_transaction_end, loop_exit, end_at_exit, add_transaction_end_for_loop,
  start_branch, highest_in, process_highest_br, place_before, check_address_dependency,
}
use cape_implementation.Transaction.Marks.{starts, ends}
use cape_implementation.Placement.Steps.{HasNodes}
use cape_implementation.Placement.Pairing.{process_highest_br_once}
use cape_implementation.Placement.Loops.{LoopOpened, place_before-LoopOpened, shared_exit_unpaired}

abbrev before : State
before = marked_with 1

sample-HasNodes : HasNodes sample
sample-HasNodes = record { has_first = λ b. (2 * b, refl); has_last = λ b. (2 * b + 1, refl) }

abbrev after : State
after = state_of (process_highest_br sample 5 3 9 some_objects before)

places : process_highest_br sample 5 3 9 some_objects before ≡ some after
unfolding process_highest_br highest_in start_branch add_transaction_end end_before no_objects
    is_empty add_transaction_start insertion_point skip_phis is_phi is_branch insert_call
    add_pre_load insert_calls preload_transaction_code preload_loop preload_block preload_own
    store_names set_block preload_bb each preload_call emit expand offer_all offer
places = refl

full : no_objects some_objects ≡ false
unfolding no_objects is_empty
full = refl

dependent : check_address_dependency (2 ∷ 3 ∷ []) 3 9 before ≡ (true, set_node 3 9 before)
unfolding check_address_dependency set_node
dependent = refl

process_highest_br_once_example :
    process_highest_br sample 5 3 9 some_objects after
    ≡ some (add_pre_load (insertion_point sample 3) some_objects after)
process_highest_br_once_example =
    process_highest_br_once sample sample-HasNodes 5 5 3 9 some_objects some_objects before after
      places full

abbrev body : List ℕ
body = 1 ∷ 2 ∷ []

exit_found : loop_exit sample 5 body 0 ≡ some 3
unfolding loop_exit
exit_found = refl

exit_found_below : loop_exit sample 5 (1 ∷ []) 2 ≡ some 3
unfolding loop_exit
exit_found_below = refl

abbrev first_loop : State
first_loop = state_of (place_before sample 5 0 1 body 9 some_objects before)

places_loop : place_before sample 5 0 1 body 9 some_objects before ≡ some first_loop
unfolding place_before add_transaction_end_for_loop end_at_exit loop_exit set_node no_objects
    is_empty add_transaction_start insertion_point skip_phis is_phi is_branch insert_call
    add_pre_load insert_calls preload_transaction_code preload_loop preload_block preload_own
    store_names set_block preload_bb each preload_call emit expand offer_all offer
places_loop = refl

abbrev second_loop : State
second_loop = state_of (place_before sample 5 2 5 (1 ∷ []) 9 some_objects first_loop)

places_second : place_before sample 5 2 5 (1 ∷ []) 9 some_objects first_loop ≡ some second_loop
unfolding place_before add_transaction_end_for_loop end_at_exit loop_exit set_node no_objects
    is_empty add_transaction_start insertion_point skip_phis is_phi is_branch insert_call
    add_pre_load insert_calls preload_transaction_code preload_loop preload_block preload_own
    store_names set_block preload_bb each preload_call emit expand offer_all offer
places_second = refl

abbrev height : ℕ → ℕ
height zero = 2
height (suc zero) = 1
height (suc (suc zero)) = 2
height (suc (suc (suc n))) = 0

down-falls : (c d : ℕ) → down c ≡ some d → height d < height c
down-falls zero zero e = absurd (ground arith)
down-falls zero (suc zero) e = omega arith
down-falls zero (suc (suc d)) e = absurd (ground arith)
down-falls (suc zero) zero e = absurd (ground arith)
down-falls (suc zero) (suc zero) e = absurd (ground arith)
down-falls (suc zero) (suc (suc zero)) e = absurd (ground arith)
down-falls (suc zero) (suc (suc (suc d))) e = omega arith
down-falls (suc (suc zero)) zero e = absurd (ground arith)
down-falls (suc (suc zero)) (suc zero) e = omega arith
down-falls (suc (suc zero)) (suc (suc d)) e = absurd (ground arith)
down-falls (suc (suc (suc n))) d e = absurd (ground arith)

place_before-LoopOpened_example : LoopOpened sample 1 3 9 before first_loop
place_before-LoopOpened_example =
    place_before-LoopOpened sample 5 0 1 3 9 body some_objects before first_loop refl full
      exit_found places_loop

shared_exit_unpaired_example :
    (starts second_loop.calls ≡ 2 + starts before.calls)
    × (ends second_loop.calls ≡ 1 + ends before.calls)
shared_exit_unpaired_example =
    shared_exit_unpaired sample 5 0 2 1 5 3 9 body (1 ∷ []) some_objects some_objects before
      first_loop second_loop (refl, refl) (refl, refl) (full, full) (exit_found, exit_found_below)
      places_loop places_second
