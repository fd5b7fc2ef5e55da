-- ===== src/Placement/Ends.antt =====
-- The placing of a transaction for a branch returns.
use cape_implementation.Prelude.{
  ℕ, ◌+◌, ◌≡◌, inl, inr, refl, Bool, Bool-cases, true, false, ◌||◌, some, ◌==◌,
}
use cape_implementation.Transaction.{
  Program, State, Objects, end_transaction, is_branch, no_objects, set_block, insert_call,
  add_transaction_start, add_pre_load, insertion_point,
}
use cape_implementation.Transaction.Ends.{IsFinite, preload_transaction_code_ends}
use cape_implementation.Placement.{
  end_before, add_transaction_end, start_branch, highest_in, process_highest_br,
}

-- A finite program in which a branch that ends a block has that block, and another one for its immediate
-- post-dominator.
pub record IsPlaced (p : Program) (n : ℕ) : Type 0 where
  pub finite : IsFinite p n
  pub has_block :
      (b i : ℕ) → p.last_node b ≡ some i → is_branch (p.opcode i) ≡ true → p.block_of i ≡ some b
  pub followed :
      (b i : ℕ)
      → p.last_node b ≡ some i
      → is_branch (p.opcode i) ≡ true
      → (e : ℕ) × (p.graph.ipostdom b ≡ some e) × ((b == e) ≡ false)

module _ (p : Program) (n : ℕ) (placed : IsPlaced p n) where
  add_transaction_end_ends :
      (bb : ℕ) (is_br : Bool) (s : State)
      → (e : ℕ) × (p.graph.ipostdom bb ≡ some e) × ((bb == e) ≡ false)
      → (t : State) × (add_transaction_end p (n + 1) bb is_br s ≡ some t)
  unfolding add_transaction_end end_before
  add_transaction_end_ends bb true s followed =
      let (place, e, apart) = followed in
      let (first, f) = placed.finite.has_first place in
      let (t, g) =
        preload_transaction_code_ends p n placed.finite bb place
          (insert_call (end_transaction (insertion_point p first)) s) apart in
      (t, rw (e, add_transaction_end, f, end_before) g)
  add_transaction_end_ends bb false s followed =
      let (place, e, _) = followed in
      let (last, f) = placed.finite.has_last bb in
      (
        insert_call (end_transaction (insertion_point p last)) s,
        rw (e, add_transaction_end, f, end_before) refl,
      )

  highest_in_ends :
      (inst cd slice_id : ℕ) (o : Objects) (s : State)
      → (e : ℕ) × (p.graph.ipostdom cd ≡ some e) × ((cd == e) ≡ false)
      → (t : State) × (highest_in p (n + 1) inst cd slice_id o s ≡ some t)
  unfolding highest_in start_branch
  highest_in_ends inst cd slice_id o s followed =
      elim (Bool-cases (s.block_slice cd == slice_id || s.block_slice cd == 777)) [
        | inl old ↦ (add_pre_load inst o s, rw old refl)
        | inr new ↦ elim (Bool-cases (no_objects o)) [
          | inl empty ↦ (s, rw (new, empty) refl)
          | inr full ↦
              let (t, e) =
                add_transaction_end_ends cd (is_branch (p.opcode inst))
                  (add_transaction_start inst (set_block cd slice_id s)) followed in
              (add_pre_load inst o t, rw (new, full, e) refl)
        ]
      ]

  -- `processHighestBr` returns for a branch that ends its block and has a post-dominator.
  pub process_highest_br_ends :
      (b bn slice_id : ℕ) (o : Objects) (s : State)
      → p.last_node b ≡ some bn
      → is_branch (p.opcode bn) ≡ true
      → (t : State) × (process_highest_br p (n + 1) bn slice_id o s ≡ some t)
  unfolding process_highest_br
  process_highest_br_ends b bn slice_id o s at_end branches =
      let (t, f) =
        highest_in_ends (insertion_point p bn) b slice_id o s
          (placed.followed b bn at_end branches) in
      (t, rw (placed.has_block b bn at_end branches, process_highest_br) f)
