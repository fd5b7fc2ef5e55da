-- ===== src/Placement/Pairing.antt =====
-- How many starts and ends the placing of a transaction inserts.
use cape_implementation.Prelude.{
  ℕ, suc, ◌+◌, ◌≤◌, ◌≡◌, ◌⊎◌, inl, inr, refl, subst, Bool-cases, true, false, ◌||◌, some, arith,
  ◌==◌, bind-some,
}
use cape_implementation.Transaction.{
  Program, State, Objects, is_branch, no_objects, set_block, insert_call, add_transaction_start,
  add_pre_load, insertion_point,
}
use cape_implementation.Transaction.Marks.{starts, ends}
use cape_implementation.Placement.{start_branch, highest_in, process_highest_br}
use cape_implementation.Placement.Steps.{
  add_pre_load-Step, add_pre_load-Marks, HasNodes, add_transaction_end-Step,
}

module _ (p : Program) (nodes : HasNodes p) where
  -- A new transaction for a branch: one start, one end, and the block is marked.
  record Opened (cd slice_id : ℕ) (s t : State) : Type 0 where
    marked : (t.block_slice cd == slice_id || t.block_slice cd == 777) ≡ true
    others :
        (x : ℕ) → (cd == x) ≡ false → (t.block_slice x ≡ s.block_slice x) ⊎ (t.block_slice x ≡ 777)
    one_start : starts t.calls ≡ suc (starts s.calls)
    one_end : ends t.calls ≡ suc (ends s.calls)

  start_branch-Opened :
      (fuel inst cd slice_id : ℕ) (s t : State)
      → start_branch p fuel inst cd slice_id s ≡ some t
      → Opened cd slice_id s t
  unfolding start_branch add_transaction_start insert_call set_block
  start_branch-Opened fuel inst cd slice_id s t e =
      let h =
        add_transaction_end-Step p nodes fuel cd (is_branch (p.opcode inst))
          (add_transaction_start inst (set_block cd slice_id s)) t e in
      record {
        marked = elim (h.slices cd) [
          | inl same ↦ ground (arith, same)
          | inr done ↦ ground (arith, done)
        ];
        others = λ x other. elim (h.slices x) [
          | inl same ↦ inl (ground (arith, same))
          | inr done ↦ inr done
        ];
        one_start = ground (arith, h.more_starts);
        one_end = ground (arith, h.more_ends);
      }

  -- As many starts as ends were inserted, at most one of each.
  abbrev pub Together : State → State → Type 0
  Together s t =
      (k : ℕ) × (k ≤ 1) × (starts t.calls ≡ k + starts s.calls) × (ends t.calls ≡ k + ends s.calls)

  -- The two answers of `processHighestBr`: the loads alone, nothing at all, or a new transaction.
  data Highest (inst cd slice_id : ℕ) (o : Objects) (s : State) : State → Type 0 where
    loads :
        (s.block_slice cd == slice_id || s.block_slice cd == 777) ≡ true
        → Highest inst cd slice_id o s (add_pre_load inst o s)
    nothing : no_objects o ≡ true → Highest inst cd slice_id o s s
    opened :
        {u : State}
        → no_objects o ≡ false
        → Opened cd slice_id s u
        → Highest inst cd slice_id o s (add_pre_load inst o u)

  highest_in-Highest :
      (fuel inst cd slice_id : ℕ) (o : Objects) (s t : State)
      → highest_in p fuel inst cd slice_id o s ≡ some t
      → Highest inst cd slice_id o s t
  unfolding highest_in
  highest_in-Highest fuel inst cd slice_id o s t e =
      elim (Bool-cases (s.block_slice cd == slice_id || s.block_slice cd == 777)) [
        | inl old ↦ arrive _ (loads old) (rw old at e)
        | inr new ↦ elim (Bool-cases (no_objects o)) [
          | inl empty ↦ arrive _ (nothing empty) (rw (new, empty) at e)
          | inr full ↦
              let (u, f, e1) =
                bind-some (start_branch p fuel inst cd slice_id s) _ t (rw (new, full) at e) in
              arrive _ (opened full (start_branch-Opened fuel inst cd slice_id s u f)) e1
        ]
      ]
    where
      arrive :
          (u : State)
          → Highest inst cd slice_id o s u
          → some u ≡ some t
          → Highest inst cd slice_id o s t
      arrive u h q = subst (λ x. Highest inst cd slice_id o s x) (ground arith) h

  Highest-Together :
      (inst cd slice_id : ℕ) (o : Objects) (s : State) {t : State}
      → Highest inst cd slice_id o s t
      → Together s t
  Highest-Together inst cd slice_id o s (loads old) =
      let h = add_pre_load-Step inst o s in (0, omega arith, h.more_starts, h.more_ends)
  Highest-Together inst cd slice_id o s (nothing empty) = (0, omega arith, omega arith, omega arith)
  Highest-Together inst cd slice_id o s (opened {u} full new) =
      let h = add_pre_load-Step inst o u in
      (
        1,
        omega arith,
        omega (arith, h.more_starts, new.one_start),
        omega (arith, h.more_ends, new.one_end),
      )

  -- Where each block has nodes and `processHighestBr` returns, it has inserted as many starts of a
  -- transaction as ends, and at most one of each.
  pub process_highest_br-Together :
      (fuel bn slice_id : ℕ) (o : Objects) (s t : State)
      → process_highest_br p fuel bn slice_id o s ≡ some t
      → Together s t
  unfolding process_highest_br
  process_highest_br-Together fuel bn slice_id o s t e =
      let (cd, _, e1) = bind-some (p.block_of bn) _ t e in
      Highest-Together (insertion_point p bn) cd slice_id o s
        (highest_in-Highest fuel (insertion_point p bn) cd slice_id o s t e1)

  Highest-marked :
      (inst cd slice_id : ℕ) (o : Objects) (s : State) {t : State}
      → Highest inst cd slice_id o s t
      → no_objects o ≡ false
      → (t.block_slice cd == slice_id || t.block_slice cd == 777) ≡ true
  Highest-marked inst cd slice_id o s (loads old) full =
      ground (arith, (add_pre_load-Marks inst o s).slices cd)
  Highest-marked inst cd slice_id o s (nothing empty) full = absurd (ground arith)
  Highest-marked inst cd slice_id o s (opened {u} _ new) full =
      ground (arith, (add_pre_load-Marks inst o u).slices cd, new.marked)

  -- After `processHighestBr` has returned with objects to load, a further call for the same node and
  -- slice, with any objects, only inserts their loads: no second transaction is started.
  pub process_highest_br_once :
      (fuel fuel2 bn slice_id : ℕ) (o o2 : Objects) (s t : State)
      → process_highest_br p fuel bn slice_id o s ≡ some t
      → no_objects o ≡ false
      → process_highest_br p fuel2 bn slice_id o2 t
        ≡ some (add_pre_load (insertion_point p bn) o2 t)
  unfolding process_highest_br highest_in
  process_highest_br_once fuel fuel2 bn slice_id o o2 s t e full =
      let (cd, f, e1) = bind-some (p.block_of bn) _ t e in
      let marked =
        Highest-marked (insertion_point p bn) cd slice_id o s
          (highest_in-Highest fuel (insertion_point p bn) cd slice_id o s t e1) full in
      rw (f, process_highest_br, highest_in, marked) refl
