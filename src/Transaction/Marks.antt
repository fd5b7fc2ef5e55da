-- ===== src/Transaction/Marks.antt =====
-- How two states of the marking compare: what is marked, which calls are inserted.
use cape_implementation.Prelude.{
  ℕ, suc, ◌≡◌, refl, ◌∙◌, subst, Bool, some, List, [], ◌∷◌, ◌++◌, map, arith, if◌then◌else◌,
}
use cape_implementation.Transaction.{
  State, Call, start_transaction, end_transaction, preload_inst_addr, iterate_alloc_stack,
  iterate_malloc_set, iterate_global,
}

-- The numbers of inserted starts and ends.
abbrev pub starts : List Call → ℕ
starts [] = 0
starts (start_transaction i ∷ cs) = suc (starts cs)
starts (end_transaction i ∷ cs) = starts cs
starts (preload_inst_addr i f ∷ cs) = starts cs
starts (iterate_alloc_stack i a ∷ cs) = starts cs
starts (iterate_malloc_set i a ∷ cs) = starts cs
starts (iterate_global i a ∷ cs) = starts cs

abbrev pub ends : List Call → ℕ
ends [] = 0
ends (start_transaction i ∷ cs) = ends cs
ends (end_transaction i ∷ cs) = suc (ends cs)
ends (preload_inst_addr i f ∷ cs) = ends cs
ends (iterate_alloc_stack i a ∷ cs) = ends cs
ends (iterate_malloc_set i a ∷ cs) = ends cs
ends (iterate_global i a ∷ cs) = ends cs

-- No start and no end was inserted, and no node marked.
pub record Quiet (s t : State) : Type 0 where
  pub same_nodes : (n : ℕ) → t.node_slice n ≡ s.node_slice n
  pub same_starts : starts t.calls ≡ starts s.calls
  pub same_ends : ends t.calls ≡ ends s.calls

pub Quiet-refl : (s : State) → Quiet s s
Quiet-refl s = record { same_nodes = λ n. refl; same_starts = refl; same_ends = refl }

pub Quiet-trans : (s t u : State) → Quiet s t → Quiet t u → Quiet s u
Quiet-trans s t u a b = record {
  same_nodes = λ n. b.same_nodes n ∙ a.same_nodes n;
  same_starts = b.same_starts ∙ a.same_starts;
  same_ends = b.same_ends ∙ a.same_ends;
}

pub preload-starts :
    (tx : ℕ) (fs : List ℕ) (cs : List Call)
    → starts (map (preload_inst_addr tx) fs ++ cs) ≡ starts cs
preload-starts tx [] cs = refl
preload-starts tx (f ∷ fs) cs = preload-starts tx fs cs

pub preload-ends :
    (tx : ℕ) (fs : List ℕ) (cs : List Call) → ends (map (preload_inst_addr tx) fs ++ cs) ≡ ends cs
preload-ends tx [] cs = refl
preload-ends tx (f ∷ fs) cs = preload-ends tx fs cs

-- Exactly the blocks of `marked` got the slice 777, all else is as before.
pub record Marks (marked : ℕ → Bool) (s t : State) : Type 0 where
  pub slices : (b : ℕ) → t.block_slice b ≡ (if marked b then 777 else s.block_slice b)
  pub quiet : Quiet s t

pub Marks-at :
    (marked : ℕ → Bool) (s u t : State) → Marks marked s u → some u ≡ some t → Marks marked s t
Marks-at marked s u t m e = subst (λ x. Marks marked s x) (ground arith) m

-- What holds of a state holds of the result that it is.
pub at_result : (P : State → Type 0) (u t : State) → some u ≡ some t → P u → P t
at_result P u t e h = subst P (ground arith) h
