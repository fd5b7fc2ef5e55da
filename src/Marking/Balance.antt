-- ===== src/Marking/Balance.antt =====
-- The starts and ends of transactions that the pass over the accesses inserts.
use cape_implementation.Prelude.{
  ℕ, ◌+◌, ◌≤◌, ◌≡◌, refl, ap, ◌∙◌, subst, Bool, Bool-cases, Option-cases, inl, inr, true, false,
  ◌||◌, ◌&&◌, not, Option, none, some, List, [], ◌∷◌, arith, ◌==◌, if◌then◌else◌, elem, bind-some,
  length,
}
use cape_implementation.Transaction.{Program, State, Objects, set_node}
use cape_implementation.Transaction.Marks.{starts, ends}
use cape_implementation.Placement.{check_address_dependency}
use cape_implementation.Placement.Address.{is_secret, check_address_dependency_correct}
use cape_implementation.Placement.Steps.{HasNodes}
use cape_implementation.Placement.Pairing.{Together}
use cape_implementation.Topmost.{Dependences, process_bblock_rev_cds}
use cape_implementation.Topmost.Whole.{process_bblock_rev_cds-Together}
use cape_implementation.Marking.{
  Builtin, memcpy, memset, Accesses, Marking, wrap, handle_node, check_addresses, process_block,
  mark_access, mark_builtin, mark_pass_two, no_objects_yet, visit_all,
}

chosen_calls :
    (b : Bool) (t : State) (rest : Bool × State) (s : State)
    → t.calls ≡ s.calls
    → rest.1.calls ≡ s.calls
    → (λ (r : Bool × State). r.1.calls) (if b then (true, t) else rest) ≡ s.calls
chosen_calls true t rest s p q = p
chosen_calls false t rest s p q = q

set_node_calls : (n v : ℕ) (s : State) → (set_node n v s).calls ≡ s.calls
unfolding set_node
set_node_calls n v s = refl

check_address_dependency_calls :
    (ns : List ℕ) (addr slice_id : ℕ) (s : State)
    → (check_address_dependency ns addr slice_id s).1.calls ≡ s.calls
check_address_dependency_calls ns addr slice_id s =
    ap (λ (r : Bool × State). r.1.calls) (check_address_dependency_correct ns addr slice_id s)
    ∙ chosen_calls (elem addr ns && is_secret s slice_id addr) (set_node addr slice_id s) (false, s)
        s (set_node_calls addr slice_id s) refl

abbrev state_of_result : State → Option Marking → State
state_of_result s none = s
state_of_result s (some m) = m.state

module _ (p : Program) (d : Dependences) (a : Accesses) (nodes : HasNodes p) where
  -- As many starts as ends, at most one of each.
  abbrev pub OnePair : State → State → Type 0
  OnePair = Together p nodes

  unchanged-OnePair : (m t : Marking) → some m ≡ some t → OnePair m.state t.state
  unchanged-OnePair m t e =
      let same : m.state ≡ t.state = ap (λ (x : Option Marking). state_of_result m.state x) e in
      subst (λ x. OnePair m.state x) same (0, omega arith, omega arith, omega arith)

  OnePair-from : (s t u : State) → t.calls ≡ s.calls → OnePair t u → OnePair s u
  OnePair-from s t u e (k, le, f, g) =
      (k, le, f ∙ ap (λ c. k + starts c) e, g ∙ ap (λ c. k + ends c) e)

  check_addresses_calls :
      (slice_id n : ℕ) (ops : List ℕ) (s : State)
      → (check_addresses p d a slice_id n ops s).1.calls ≡ s.calls
  unfolding check_addresses
  check_addresses_calls slice_id n [] s = refl
  check_addresses_calls slice_id n (op ∷ ops) s =
      let addr = a.operand n op in
      let first = check_address_dependency (a.rev_data n) addr (wrap (slice_id + 3)) s in
      let second = check_address_dependency (a.users n) addr (wrap (slice_id + 3)) first.1 in
      let one = check_address_dependency_calls (a.rev_data n) addr (wrap (slice_id + 3)) s in
      let two =
        check_address_dependency_calls (a.users n) addr (wrap (slice_id + 3)) first.1 ∙ one in
      let rest = check_addresses p d a slice_id n ops second.1 in
      chosen_calls first.0 first.1 (if second.0 then (true, second.1) else rest) s one (
        chosen_calls second.0 second.1 rest s two
          (check_addresses_calls slice_id n ops second.1 ∙ two))

  process_block-OnePair :
      (fuel : ℕ) (add_dep : Bool) (b : Option ℕ) (slice_id : ℕ) (o : Objects) (s t : State)
      → process_block p d a fuel false add_dep b [] slice_id o s ≡ some t
      → OnePair s t
  unfolding process_block
  process_block-OnePair fuel add_dep none slice_id o s t e =
      let same : s ≡ t = ground arith in
      subst (λ x. OnePair s x) same (0, omega arith, omega arith, omega arith)
  process_block-OnePair fuel add_dep (some b) slice_id o s t e =
      let (q, f, e1) =
        bind-some (process_bblock_rev_cds p d fuel false add_dep b [] slice_id o s) _ t e in
      let same : q.1 ≡ t = ground arith in
      subst (λ x. OnePair s x) same
        (process_bblock_rev_cds-Together p d fuel slice_id o nodes add_dep b [] s q f)

  mark_access-OnePair :
      (fuel slice_id n op : ℕ) (ops : List ℕ) (m t : Marking)
      → mark_access p d a fuel slice_id n op ops m ≡ some t
      → OnePair m.state t.state
  unfolding mark_access handle_node set_node
  mark_access-OnePair fuel slice_id n op ops m t e =
      let started = record m { state = set_node n (wrap (slice_id + 1)) m.state } in
      let (o, found) = handle_node p d a slice_id n op no_objects_yet started in
      let tested = check_addresses p d a slice_id n ops found.state in
      let (u, f, e1) =
        bind-some
          (process_block p d a fuel false tested.0 (p.block_of n) [] (wrap (slice_id + 4)) o
            tested.1)
          _ t e in
      let same : u ≡ t.state = ap (λ (x : Option Marking). state_of_result u x) e1 in
      subst (λ x. OnePair m.state x) same
        (OnePair-from m.state tested.1 u (check_addresses_calls slice_id n ops found.state)
          (process_block-OnePair fuel tested.0 (p.block_of n) (wrap (slice_id + 4)) o tested.1 u f))

  mark_builtin-OnePair :
      (fuel slice_id n : ℕ) (b : Option Builtin) (m t : Marking)
      → mark_builtin p d a fuel slice_id n b m ≡ some t
      → OnePair m.state t.state
  unfolding mark_builtin
  mark_builtin-OnePair fuel slice_id n none m t e = unchanged-OnePair m t e
  mark_builtin-OnePair fuel slice_id n (some memcpy) m t e =
      mark_access-OnePair fuel slice_id n 9 (0 ∷ 1 ∷ []) m t e
  mark_builtin-OnePair fuel slice_id n (some memset) m t e =
      mark_access-OnePair fuel slice_id n 0 (0 ∷ []) m t e

  -- Where all blocks have nodes, a visit of `markSlice` in pass 2 that returns inserts as many starts of a
  -- transaction as ends, and at most one of each.
  pub mark_pass_two-OnePair :
      (fuel slice_id n : ℕ) (m t : Marking)
      → mark_pass_two p d a fuel slice_id n m ≡ some t
      → OnePair m.state t.state
  unfolding mark_pass_two
  mark_pass_two-OnePair fuel slice_id n m t e =
      elim (Bool-cases (m.state.node_slice n == 0 || not (a.is_instruction n))) [
        | inl skipped ↦ unchanged-OnePair m t (rw skipped at e)
        | inr visited ↦ elim (Option-cases (a.access n)) [
          | inl no_access ↦
              mark_builtin-OnePair fuel slice_id n (a.builtin n) m t
                (rw (visited, no_access, mark_pass_two) at e)
          | inr (op, f) ↦
              mark_access-OnePair fuel slice_id n op (op ∷ []) m t
                (rw (visited, f, mark_pass_two) at e)
        ]
      ]

  -- Pass 2 leaves the transactions balanced: whatever nodes are visited in whatever order, where all
  -- visits return and all blocks have nodes, they insert as many starts as ends, at most one for each visit.
  pub visit_all_balanced :
      (fuel slice_id : ℕ) (ns : List ℕ) (m t : Marking)
      → visit_all p d a fuel slice_id ns m ≡ some t
      → (k : ℕ) × (k ≤ length ns)
        × (starts t.state.calls ≡ k + starts m.state.calls)
        × (ends t.state.calls ≡ k + ends m.state.calls)
  unfolding visit_all
  visit_all_balanced fuel slice_id [] m t e =
      let same : m.state.calls ≡ t.state.calls = ground arith in
      (0, omega arith, ground (arith, same), ground (arith, same))
  visit_all_balanced fuel slice_id (n ∷ ns) m t e =
      let (u, f, e1) = bind-some (mark_pass_two p d a fuel slice_id n m) _ t e in
      let (j, le, s1, e2) = mark_pass_two-OnePair fuel slice_id n m u f in
      let (k, le2, s3, e4) = visit_all_balanced fuel slice_id ns u t e1 in
      (k + j, omega arith, omega arith, omega arith)
