-- ===== src/Topmost/Examples.antt =====
-- The search for a branch at a small program.
use cape_implementation.Prelude.{
  ℕ, zero, suc, ◌+◌, ◌*◌, ◌/◌, ◌<◌, ◌≡◌, inl, inr, refl, ap, sym, subst, ◌∙◌, Bool, Bool-cases,
  true, false, none, some, [], arith, ◌==◌, ==_iff,
}
use cape_implementation.Worklist.{expand, offer_all, offer}
use cape_implementation.Worklist.Ends.{Below}
use cape_implementation.Preload.{emit, each, preload_call, preload_bb}
use cape_implementation.Transaction.{
  State, is_phi, is_branch, is_empty, no_objects, set_block, insert_call, add_transaction_start,
  insert_calls, add_pre_load, skip_phis, insertion_point, store_names, preload_own, preload_block,
  preload_loop, preload_transaction_code,
}
use cape_implementation.Sample.{
  succs, down, up, sample_code, sample, sample_dependences, marked_with, some_objects, state_of,
}
use cape_implementation.Placement.{
  end_before, add_transaction_end, start_branch, highest_in, process_highest_br,
}
use cape_implementation.Transaction.Ends.{IsFinite}
use cape_implementation.Placement.Steps.{HasNodes}
use cape_implementation.Placement.Pairing.{Together}
use cape_implementation.Topmost.{
  or_else, rev_loop, rev_controls, sensitive_block, sensitive_node, dominator, visit_dominator,
  first_of, at_dominator, search_branch, immediate_branch, first_branch, use_branch, at_block,
  process_bblock_rev_cds,
}
use cape_implementation.Topmost.Target.{Sound, search_branch-Sound}
use cape_implementation.Topmost.Whole.{
  Handled, process_bblock_rev_cds-Handled, process_bblock_rev_cds-Together,
}
use cape_implementation.Placement.Ends.{IsPlaced}
use cape_implementation.Topmost.Ends.{IsRanked, search_branch_ends}

abbrev before : State
before = marked_with 1

abbrev after : State
after = state_of (process_highest_br sample 5 3 9 some_objects before)

searches :
    search_branch sample sample_dependences 5 5 9 some_objects (some 2) none before
    ≡ some (true, after)
unfolding search_branch at_dominator visit_dominator first_of dominator sensitive_block
    sensitive_node rev_controls rev_loop or_else process_highest_br highest_in start_branch
    add_transaction_end end_before no_objects is_empty add_transaction_start insertion_point
    skip_phis is_phi is_branch insert_call add_pre_load insert_calls preload_transaction_code
    preload_loop preload_block preload_own store_names set_block preload_bb each preload_call emit
    expand offer_all offer
searches = refl

handles :
    process_bblock_rev_cds sample sample_dependences 5 false true 2 [] 9 some_objects before
    ≡ some (true, after)
unfolding process_bblock_rev_cds first_branch immediate_branch use_branch at_block search_branch
    at_dominator visit_dominator first_of dominator sensitive_block sensitive_node rev_controls
    rev_loop or_else process_highest_br highest_in start_branch add_transaction_end end_before
    no_objects is_empty add_transaction_start insertion_point skip_phis is_phi is_branch insert_call
    add_pre_load insert_calls preload_transaction_code preload_loop preload_block preload_own
    store_names set_block preload_bb each preload_call emit expand offer_all offer
handles = refl

sample-HasNodes : HasNodes sample
sample-HasNodes = record { has_first = λ b. (2 * b, refl); has_last = λ b. (2 * b + 1, refl) }

succs-Below : (b : ℕ) → Below 4 (succs b)
succs-Below zero a p = ground (arith, ==_iff 1 a)
succs-Below (suc zero) a p = ground (arith, ==_iff 2 a, ==_iff 3 a)
succs-Below (suc (suc zero)) a p = ground (arith, ==_iff 1 a)
succs-Below (suc (suc (suc b))) a p = cc

calls-Below : (b : ℕ) → Below 4 (sample_code.calls b)
calls-Below b a p = ground (arith, ==_iff 1 a)

sample-IsFinite : IsFinite sample 4
sample-IsFinite = record {
  successors_below = succs-Below;
  calls_below = calls-Below;
  has_first = λ b. (2 * b, refl);
  has_last = λ b. (2 * b + 1, refl);
}

branch_last :
    (b i : ℕ) → some (2 * b + 1) ≡ some i → is_branch (sample.opcode i) ≡ true → (i ≡ 3) × (b ≡ 1)
unfolding is_branch
branch_last b i e q = elim (Bool-cases (i == 3)) [
  | inl at_three ↦
      let same : 2 * b + 1 ≡ i = ground arith in
      let three : i ≡ 3 = ground (arith, ==_iff i 3) in (three, omega arith)
  | inr elsewhere ↦ absurd (ground arith)
]

sample-IsPlaced : IsPlaced sample 4
sample-IsPlaced = record {
  finite = sample-IsFinite;
  has_block = λ b i e q.
      let (i_is, b_is) = branch_last b i e q in ap (λ x. some (x / 2)) i_is ∙ ap some (sym b_is);
  followed = λ b i e q.
      let (_, b_is) = branch_last b i e q in
      subst (λ x. (y : ℕ) × (down x ≡ some y) × ((x == y) ≡ false)) (sym b_is) (3, refl, refl);
}

abbrev depth : ℕ → ℕ
depth zero = 0
depth (suc zero) = 1
depth (suc (suc zero)) = 2
depth (suc (suc (suc zero))) = 2
depth (suc (suc (suc (suc n)))) = 0

up-falls : (b c : ℕ) → up b ≡ some c → depth c < depth b
up-falls zero d e = cc
up-falls (suc zero) zero e = omega arith
up-falls (suc zero) (suc d) e = absurd (ground arith)
up-falls (suc (suc zero)) zero e = absurd (ground arith)
up-falls (suc (suc zero)) (suc zero) e = omega arith
up-falls (suc (suc zero)) (suc (suc d)) e = absurd (ground arith)
up-falls (suc (suc (suc zero))) zero e = absurd (ground arith)
up-falls (suc (suc (suc zero))) (suc zero) e = omega arith
up-falls (suc (suc (suc zero))) (suc (suc d)) e = absurd (ground arith)
up-falls (suc (suc (suc (suc n)))) d e = cc

sample-IsRanked : IsRanked sample sample_dependences (λ i. 0) depth
sample-IsRanked = record {
  dominator_falls = up-falls;
  first_below = λ b i e. omega arith;
  node_falls = λ i j m taken. absurd (ground arith);
  block_falls = λ i j c m taken e. absurd (ground arith);
}

low_block : (x : ℕ) → some 2 ≡ some x → depth x < 5
low_block zero e = omega arith
low_block (suc zero) e = omega arith
low_block (suc (suc zero)) e = omega arith
low_block (suc (suc (suc zero))) e = omega arith
low_block (suc (suc (suc (suc n)))) e = omega arith

search_branch-Sound_example : Sound sample sample_dependences 5 9 some_objects before (true, after)
search_branch-Sound_example =
    search_branch-Sound sample sample_dependences 5 9 some_objects 5 (some 2) none before
      (true, after) searches

process_bblock_rev_cds-Handled_example :
    Handled sample sample_dependences 5 9 some_objects false true 2 [] before (true, after)
process_bblock_rev_cds-Handled_example =
    process_bblock_rev_cds-Handled sample sample_dependences 5 9 some_objects false true 2 [] before
      (true, after) handles

process_bblock_rev_cds-Together_example : Together sample sample-HasNodes before after
process_bblock_rev_cds-Together_example =
    process_bblock_rev_cds-Together sample sample_dependences 5 9 some_objects sample-HasNodes true
      2 [] before (true, after) handles

search_branch_ends_example :
    (q : Bool × State) × (search_branch sample sample_dependences
        (4 + 2)
        (4 + 1)
        9
        some_objects
        (some 2)
        none
        before
      ≡ some q)
search_branch_ends_example =
    search_branch_ends sample sample_dependences 4 sample-IsPlaced (λ i. 0) depth sample-IsRanked 9
      some_objects (some 2) none before low_block (λ x e. omega arith)
