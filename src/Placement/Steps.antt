-- ===== src/Placement/Steps.antt =====
-- What the parts of the placing of a transaction insert and mark.
use cape_implementation.Prelude.{
  ℕ, ◌+◌, ◌≡◌, ◌⊎◌, inl, inr, refl, ◌∙◌, subst, Bool, Bool-cases, true, false, some, List, [], ◌∷◌,
  map, arith, ◌==◌, bind-some,
}
use cape_implementation.Transaction.{
  Program, State, Call, Objects, end_transaction, iterate_alloc_stack, iterate_malloc_set,
  iterate_global, insert_call, insert_calls, add_pre_load, insertion_point,
  preload_transaction_code,
}
use cape_implementation.Transaction.Marks.{starts, ends, Quiet-refl, Quiet-trans, Marks}
use cape_implementation.Transaction.Region.{preload_transaction_code_correct}
use cape_implementation.Placement.{end_before, add_transaction_end}

module _ (call : ℕ → Call) (no_start : (x : ℕ) (cs : List Call) → starts (call x ∷ cs) ≡ starts cs)
    (no_end : (x : ℕ) (cs : List Call) → ends (call x ∷ cs) ≡ ends cs) where
  insert_calls-Marks :
      (xs : List ℕ) (s : State) → Marks (λ b. false) s (insert_calls (map call xs) s)
  unfolding insert_calls insert_call
  insert_calls-Marks [] s = record { slices = λ b. refl; quiet = Quiet-refl s }
  insert_calls-Marks (x ∷ xs) s =
      let rest = insert_calls-Marks xs (insert_call (call x) s) in
      record {
        slices = rest.slices;
        quiet = record {
          same_nodes = rest.quiet.same_nodes;
          same_starts = rest.quiet.same_starts ∙ no_start x s.calls;
          same_ends = rest.quiet.same_ends ∙ no_end x s.calls;
        };
      }

Marks-trans :
    (s t u : State) → Marks (λ b. false) s t → Marks (λ b. false) t u → Marks (λ b. false) s u
Marks-trans s t u a b = record {
  slices = λ x. b.slices x ∙ a.slices x;
  quiet = Quiet-trans s t u a.quiet b.quiet;
}

pub add_pre_load-Marks :
    (inst : ℕ) (o : Objects) (s : State) → Marks (λ b. false) s (add_pre_load inst o s)
unfolding add_pre_load
add_pre_load-Marks inst o s =
    let t = insert_calls (map (iterate_alloc_stack inst) o.allocs) s in
    let u = insert_calls (map (iterate_malloc_set inst) o.mallocs) t in
    Marks-trans s t _
      (insert_calls-Marks (iterate_alloc_stack inst) (λ x cs. refl) (λ x cs. refl) o.allocs s)
      (Marks-trans t u _
        (insert_calls-Marks (iterate_malloc_set inst) (λ x cs. refl) (λ x cs. refl) o.mallocs t)
        (insert_calls-Marks (iterate_global inst) (λ x cs. refl) (λ x cs. refl) o.globals u))

-- `a` starts and `b` ends were inserted, no node was marked, and each block is as before or has the
-- slice of preloaded code.
pub record Step (a b : ℕ) (s t : State) : Type 0 where
  pub slices : (x : ℕ) → (t.block_slice x ≡ s.block_slice x) ⊎ (t.block_slice x ≡ 777)
  pub nodes : (n : ℕ) → t.node_slice n ≡ s.node_slice n
  pub more_starts : starts t.calls ≡ a + starts s.calls
  pub more_ends : ends t.calls ≡ b + ends s.calls

pub Step-refl : (s : State) → Step 0 0 s s
Step-refl s = record {
  slices = λ x. inl refl;
  nodes = λ n. refl;
  more_starts = ground arith;
  more_ends = ground arith;
}

pub Step-to : (a b : ℕ) (s u t : State) → Step a b s u → some u ≡ some t → Step a b s t
Step-to a b s u t h e = subst (λ x. Step a b s x) (ground arith) h

pub Step-trans :
    (a b c d : ℕ) (s t u : State) → Step a b s t → Step c d t u → Step (c + a) (d + b) s u
Step-trans a b c d s t u h k = record {
  slices = λ x. elim (k.slices x) [
    | inl same ↦ elim (h.slices x) [ inl old ↦ inl (same ∙ old) | inr marked ↦ inr (same ∙ marked) ]
    | inr marked ↦ inr marked
  ];
  nodes = λ n. k.nodes n ∙ h.nodes n;
  more_starts = omega (arith, h.more_starts, k.more_starts);
  more_ends = omega (arith, h.more_ends, k.more_ends);
}

pub end_call-Step : (i : ℕ) (s : State) → Step 0 1 s (insert_call (end_transaction i) s)
unfolding insert_call
end_call-Step i s = record {
  slices = λ x. inl refl;
  nodes = λ n. refl;
  more_starts = ground arith;
  more_ends = ground arith;
}

pub add_pre_load-Step : (inst : ℕ) (o : Objects) (s : State) → Step 0 0 s (add_pre_load inst o s)
add_pre_load-Step inst o s =
    let m = add_pre_load-Marks inst o s in
    record {
      slices = λ x. inl (m.slices x);
      nodes = m.quiet.same_nodes;
      more_starts = omega (arith, m.quiet.same_starts);
      more_ends = omega (arith, m.quiet.same_ends);
    }

-- Every block has a first and a last node.
pub record HasNodes (p : Program) : Type 0 where
  pub has_first : (b : ℕ) → (i : ℕ) × (p.first_node b ≡ some i)
  pub has_last : (b : ℕ) → (i : ℕ) × (p.last_node b ≡ some i)

module _ (p : Program) where
  pub preload_marked :
      (fuel start end : ℕ) (s t : State)
      → preload_transaction_code p fuel start end s ≡ some t
      → (s.block_slice start == 777) ≡ true
      → some s ≡ some t
  unfolding preload_transaction_code
  preload_marked fuel start end s t e done = elim (Bool-cases (start == end)) [
    | inl same ↦ absurd (ground arith)
    | inr apart ↦ rw (apart, done) at e
  ]

  pub preload-Step :
      (fuel start end : ℕ) (s t : State)
      → preload_transaction_code p fuel start end s ≡ some t
      → Step 0 0 s t
  preload-Step fuel start end s t e = elim (Bool-cases (s.block_slice start == 777)) [
    | inl done ↦ Step-to 0 0 s s t (Step-refl s) (preload_marked fuel start end s t e done)
    | inr fresh ↦
        let (region, quiet) = preload_transaction_code_correct p fuel start end s t e fresh in
        record {
          slices = λ b. elim ((region b).1) [ inl same ↦ inl same | inr w ↦ inr ((region b).0 w) ];
          nodes = quiet.same_nodes;
          more_starts = omega (arith, quiet.same_starts);
          more_ends = omega (arith, quiet.same_ends);
        }
  ]

  module _ (nodes : HasNodes p) where
    end_before-Step :
        (fuel bb place first : ℕ) (is_br : Bool) (s t : State)
        → end_before p fuel bb place is_br (some first) s ≡ some t
        → Step 0 1 s t
    unfolding end_before
    end_before-Step fuel bb place first true s t e =
        let u = insert_call (end_transaction (insertion_point p first)) s in
        Step-trans 0 1 0 0 s u t (end_call-Step _ s) (preload-Step fuel bb place u t e)
    end_before-Step fuel bb place first false s t e = Step-to 0 1 s _ t (end_call-Step _ s) e

    pub add_transaction_end-Step :
        (fuel bb : ℕ) (is_br : Bool) (s t : State)
        → add_transaction_end p fuel bb is_br s ≡ some t
        → Step 0 1 s t
    unfolding add_transaction_end
    add_transaction_end-Step fuel bb true s t e =
        let (place, _, e1) = bind-some (p.graph.ipostdom bb) _ t e in
        let (first, f) = nodes.has_first place in
        end_before-Step fuel bb place first true s t (rw f at e1)
    add_transaction_end-Step fuel bb false s t e =
        let (place, _, e1) = bind-some (p.graph.ipostdom bb) _ t e in
        let (last, f) = nodes.has_last bb in end_before-Step fuel bb bb last false s t (rw f at e1)
