-- ===== src/Placement/Exit.antt =====
-- The block where the transaction of a loop ends.
use cape_implementation.Prelude.{
  ℕ, zero, suc, ◌<◌, ◌≡◌, ◌↔◌, inl, inr, ◌∙◌, Bool-cases, Option-cases, true, false, some, List,
  arith, elem,
}
use cape_implementation.Transaction.{Program}
use cape_implementation.Placement.{loop_exit}

module _ (p : Program) (loop : List ℕ) where
  -- The way up the immediate post-dominators from a block to the first one outside of the loop.
  pub data FirstOutside : ℕ → ℕ → Type 0 where
    outside_loop : {c d : ℕ} → p.graph.ipostdom c ≡ some d → elem d loop ≡ false → FirstOutside c d
    inside_loop :
        {c e : ℕ} (d : ℕ)
        → p.graph.ipostdom c ≡ some d
        → elem d loop ≡ true
        → FirstOutside d e
        → FirstOutside c e

  loop_exit_sound : (fuel cur e : ℕ) → loop_exit p fuel loop cur ≡ some e → FirstOutside cur e
  unfolding loop_exit
  loop_exit_sound zero cur e h = absurd (ground arith)
  loop_exit_sound (suc fuel) cur e h = elim (Option-cases (p.graph.ipostdom cur)) [
    | inl last ↦ absurd (ground arith)
    | inr (d, q) ↦ elim (Bool-cases (elem d loop)) [
      | inl inner ↦ inside_loop d q inner (loop_exit_sound fuel d e (ground arith))
      | inr outer ↦ outside_loop (q ∙ ground arith) (ground arith)
    ]
  ]

  module _ (rank : ℕ → ℕ) (falls : (c d : ℕ) → p.graph.ipostdom c ≡ some d → rank d < rank c) where
    loop_exit_complete :
        (fuel : ℕ) {cur e : ℕ}
        → rank cur < fuel
        → FirstOutside cur e
        → loop_exit p fuel loop cur ≡ some e
    unfolding loop_exit
    loop_exit_complete zero lt f = absurd (omega arith)
    loop_exit_complete (suc fuel) lt (outside_loop q m) = ground arith
    loop_exit_complete (suc fuel) {cur} lt (inside_loop d q m f) =
        let rest = loop_exit_complete fuel (omega (arith, falls cur d q)) f in ground arith

    -- Where the immediate post-dominators form a forest, the loop of `addTransactionEndForLoop` finds
    -- exactly the first post-dominator of the preheader that lies outside of the loop.
    pub loop_exit_correct :
        (fuel cur e : ℕ)
        → rank cur < fuel
        → (loop_exit p fuel loop cur ≡ some e) ↔ FirstOutside cur e
    loop_exit_correct fuel cur e lt = (loop_exit_sound fuel cur e, loop_exit_complete fuel lt)
