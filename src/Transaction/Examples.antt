-- ===== src/Transaction/Examples.antt =====
-- The preloading of a transaction at a small program.
use cape_implementation.Prelude.{ℕ, zero, suc, ◌+◌, ◌*◌, ◌≡◌, ◌⊎◌, refl, some, arith, ==_iff}
use cape_implementation.Worklist.{expand, offer_all, offer}
use cape_implementation.Worklist.Ends.{Below}
use cape_implementation.Preload.{emit, each, preload_call, preload_bb}
use cape_implementation.Transaction.{
  State, set_block, store_names, preload_own, preload_block, preload_loop, preload_transaction_code,
}
use cape_implementation.Sample.{succs, sample_code, sample, marked_with, state_of}
use cape_implementation.Transaction.Marks.{Quiet}
use cape_implementation.Transaction.Region.{Region, preload_transaction_code_correct}
use cape_implementation.Transaction.Ends.{IsFinite, preload_transaction_code_ends}

abbrev before : State
before = marked_with 1

abbrev after : State
after = state_of (preload_transaction_code sample 5 1 3 before)

preloads : preload_transaction_code sample 5 1 3 before ≡ some after
unfolding preload_transaction_code preload_loop preload_block preload_own store_names set_block
    preload_bb each preload_call emit expand offer_all offer
preloads = refl

body_preloaded : after.block_slice 2 ≡ 777
unfolding preload_transaction_code preload_loop preload_block preload_own store_names set_block
    preload_bb each preload_call emit expand offer_all offer
body_preloaded = refl

succs-Below : (b : ℕ) → Below 4 (succs b)
succs-Below zero a p = ground (arith, ==_iff 1 a)
succs-Below (suc zero) a p = ground (arith, ==_iff 2 a, ==_iff 3 a)
succs-Below (suc (suc zero)) a p = ground (arith, ==_iff 1 a)
succs-Below (suc (suc (suc b))) a p = cc

calls-Below : (b : ℕ) → Below 4 (sample_code.calls b)
calls-Below b a p = ground (arith, ==_iff 1 a)

sample-IsFinite : IsFinite sample 4
sample-IsFinite = record {
  successors_below = succs-Below;
  calls_below = calls-Below;
  has_first = λ b. (2 * b, refl);
  has_last = λ b. (2 * b + 1, refl);
}

preload_transaction_code_correct_example :
    ((b : ℕ)
      → (Region sample 1 3 b → after.block_slice b ≡ 777)
        × ((after.block_slice b ≡ 1) ⊎ Region sample 1 3 b))
    × Quiet before after
preload_transaction_code_correct_example =
    preload_transaction_code_correct sample 5 1 3 before after preloads refl

preload_transaction_code_ends_example :
    (t : State) × (preload_transaction_code sample (4 + 1) 1 3 before ≡ some t)
preload_transaction_code_ends_example =
    preload_transaction_code_ends sample 4 sample-IsFinite 1 3 before refl
