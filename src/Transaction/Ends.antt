-- ===== src/Transaction/Ends.antt =====
-- `preloadTransactionCode` returns.
use cape_implementation.Prelude.{
  ℕ, zero, suc, ◌+◌, ◌≡◌, inl, inr, refl, Bool-cases, List-cases, false, some, [], ◌∷◌, arith, ◌==◌,
}
use cape_implementation.Worklist.{Search, push_back, expand, explore}
use cape_implementation.Worklist.Reach.{push_back-IsPush}
use cape_implementation.Worklist.Ends.{Below, outside-le, explore_ends}
use cape_implementation.Preload.Ends.{preload_bb_ends}
use cape_implementation.Transaction.{
  Program, State, set_block, store_names, preload_own, preload_block, preload_loop, region_queue,
  preload_transaction_code,
}

-- A program whose blocks and functions are numbered below `n`; each block has a first and a last node.
pub record IsFinite (p : Program) (n : ℕ) : Type 0 where
  pub successors_below : (b : ℕ) → Below n (p.graph.successors b)
  pub calls_below : (b : ℕ) → Below n (p.code.calls b)
  pub has_first : (b : ℕ) → (i : ℕ) × (p.first_node b ≡ some i)
  pub has_last : (b : ℕ) → (i : ℕ) × (p.last_node b ≡ some i)

module _ (p : Program) (n : ℕ) (finite : IsFinite p n) where
  preload_block_ends :
      (tx cur : ℕ) (s : State) → (t : State) × (preload_block p (n + 1) tx cur s ≡ some t)
  unfolding preload_block
  preload_block_ends tx cur s = elim (Bool-cases (s.block_slice cur == 777)) [
    | inl done ↦ (s, rw done refl)
    | inr new ↦
        let (first, e) = finite.has_first cur in
        let (names, f) =
          preload_bb_ends p.code n finite.calls_below (p.basic_block first)
            (record { funcs = s.funcs tx; emitted = [] }) in
        (store_names p tx names (set_block cur 777 s), rw (new, e, preload_block, f) refl)
  ]

  preload_loop_ends :
      (fuel tx : ℕ) (q r : Search) (s : State)
      → explore push_back p.graph.successors fuel q ≡ some r
      → (t : State) × (preload_loop p fuel (n + 1) tx q s ≡ some t)
  unfolding preload_loop explore
  preload_loop_ends zero tx q r s e = elim (List-cases q.pending) [
    | inl empty ↦ (s, ground arith)
    | inr (cur, rest, f) ↦ absurd (ground arith)
  ]
  preload_loop_ends (suc fuel) tx q r s e = elim (List-cases q.pending) [
    | inl empty ↦ (s, ground arith)
    | inr (cur, rest, f) ↦
        let (u, g) = preload_block_ends tx cur s in
        let (t, h) =
          preload_loop_ends fuel tx (expand push_back p.graph.successors q cur rest) r u
            (rw (f, explore) at e) in
        (t, rw (f, preload_loop, g) h)
  ]

  -- In a finite program `preloadTransactionCode` returns for any two different blocks.
  pub preload_transaction_code_ends :
      (start end : ℕ) (s : State)
      → (start == end) ≡ false
      → (t : State) × (preload_transaction_code p (n + 1) start end s ≡ some t)
  unfolding preload_transaction_code
  preload_transaction_code_ends start end s apart = elim (Bool-cases (s.block_slice start == 777)) [
    | inl done ↦ (s, rw (apart, done) refl)
    | inr new ↦
        let (tx, e) = finite.has_last start in
        let (first, f) = finite.has_first start in
        let (r, x) =
          explore_ends push_back push_back-IsPush n p.graph.successors (n + 1)
            (region_queue p start end) finite.successors_below
            (omega (arith, outside-le n (end ∷ start ∷ []))) in
        let (t, h) =
          preload_loop_ends (n + 1) tx (region_queue p start end) r
            (set_block start 777 (preload_own p tx first s)) x in
        (t, rw (apart, new, e, preload_transaction_code, f) h)
  ]
