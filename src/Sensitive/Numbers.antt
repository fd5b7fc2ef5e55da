-- ===== src/Sensitive/Numbers.antt =====
-- The numbers of the buffers.
use cape_implementation.Prelude.{
  ℕ, suc, ◌+◌, ◌%◌, ◌^◌, ◌≤◌, ◌<◌, ◌≡◌, ◌≢◌, ◌⊎◌, inl, inr, refl, sym, ap, ◌∙◌, Bool, Bool-cases,
  true, false, Option, none, some, List, [], ◌∷◌, arith, ◌==◌, ==_iff, length,
}
use cape_implementation.Transaction.{Objects}
use cape_implementation.Sensitive.{
  Value, null_value, global_variable, stack_slot, malloc_call, other_value, Target,
  push_alloc_stack, Buffers, is_buffered, new_buffer, add_hook, mark_local, add_pop, number_slot,
  number_malloc, mark_option, Step, touch_slot, touch_malloc, touch_global, touch_value,
  unless_done, touch_targets, operands, touch_operands, handle_sensitive_access,
}

-- No two targets have the same number, and all numbers were given out.
pub record IsNumbered (m : Buffers) : Type 0 where
  pub bounded : (t : ℕ) → m.buffer t ≤ m.alloc_id
  pub distinct : (t u : ℕ) → m.buffer t ≡ m.buffer u → (m.buffer t ≡ 0) ⊎ (t ≡ u)

-- From `m` on the numbers were kept, and those up to `top` may be given out.
record Reaches (m : Buffers) (top : ℕ) (n : Buffers) : Type 0 where
  numbered : IsNumbered n
  below : n.alloc_id ≤ top
  kept : (t : ℕ) → m.buffer t ≢ 0 → n.buffer t ≡ m.buffer t

Reaches-weaken : (m : Buffers) (k l : ℕ) (n : Buffers) → k ≤ l → Reaches m k n → Reaches m l n
Reaches-weaken m k l n h r = record {
  numbered = r.numbered;
  below = omega (arith, r.below);
  kept = r.kept;
}

-- Only the numbers matter.
Reaches-same :
    (m : Buffers) (k : ℕ) (n o : Buffers)
    → o.alloc_id ≡ n.alloc_id
    → o.buffer ≡ n.buffer
    → Reaches m k n
    → Reaches m k o
Reaches-same m k n o e f r = record {
  numbered = record {
    bounded = λ t. omega (arith, r.numbered.bounded t, ap (λ g. g t) f, e);
    distinct = λ t u q.
        elim (r.numbered.distinct t u (sym (ap (λ g. g t) f) ∙ q ∙ ap (λ g. g u) f)) [
          | inl absent ↦ inl (ap (λ g. g t) f ∙ absent)
          | inr same ↦ inr same
        ];
  };
  below = omega (arith, r.below, e);
  kept = λ t p. ap (λ g. g t) f ∙ r.kept t p;
}

module _ (m : Buffers) where
  new_buffer-Reaches :
      (t k : ℕ) (n : Buffers)
      → n.buffer t ≡ 0
      → suc k < 2 ^ 32
      → Reaches m k n
      → Reaches m (suc k) (new_buffer t n)
  unfolding new_buffer
  new_buffer-Reaches t k n e lt r =
      let low = r.below in
      let next : (n.alloc_id + 1) % 2 ^ 32 ≡ n.alloc_id + 1 = omega arith in
      record {
        numbered = record {
          bounded = λ u. ground (arith, r.numbered.bounded u, next);
          distinct = λ u v q. ground (
            arith,
            r.numbered.distinct u v,
            r.numbered.bounded u,
            r.numbered.bounded v,
            next,
            ==_iff t u,
            ==_iff t v,
          );
        };
        below = omega arith;
        kept = λ u p. ground (arith, r.kept u p, ==_iff t u, ap n.buffer);
      }

  add_pop-Reaches :
      (ret : Option ℕ) (bid k : ℕ) (n : Buffers) → Reaches m k n → Reaches m k (add_pop ret bid n)
  unfolding add_pop add_hook
  add_pop-Reaches none bid k n r = r
  add_pop-Reaches (some i) bid k n r = Reaches-same m k n _ refl refl r

  number_slot-Reaches :
      (t slot k : ℕ) (ret : Option ℕ) (n : Buffers)
      → suc k < 2 ^ 32
      → Reaches m k n
      → Reaches m (suc k) (number_slot t slot ret n)
  unfolding number_slot is_buffered add_hook
  number_slot-Reaches t slot k ret n lt r = elim (Bool-cases (n.buffer t == 0)) [
    | inl absent ↦
        let first = new_buffer-Reaches t k n (ground (arith, ==_iff (n.buffer t) 0)) lt r in
        let after = new_buffer t n in
        rw absent (
          add_pop-Reaches ret after.alloc_id (suc k)
            (add_hook (push_alloc_stack slot after.alloc_id) after)
            (Reaches-same m (suc k) after _ refl refl first))
    | inr present ↦ rw present (Reaches-weaken m k (suc k) n (omega arith) r)
  ]

  number_malloc-Reaches :
      (t call k : ℕ) (n : Buffers)
      → suc k < 2 ^ 32
      → Reaches m k n
      → Reaches m (suc k) (number_malloc t call n)
  unfolding number_malloc is_buffered add_hook
  number_malloc-Reaches t call k n lt r = elim (Bool-cases (n.buffer t == 0)) [
    | inl absent ↦
        let first = new_buffer-Reaches t k n (ground (arith, ==_iff (n.buffer t) 0)) lt r in
        rw absent (Reaches-same m (suc k) (new_buffer t n) _ refl refl first)
    | inr present ↦ rw present (Reaches-weaken m k (suc k) n (omega arith) r)
  ]

  mark_option-Reaches :
      (slice_id k : ℕ) (g : Option ℕ) (n : Buffers)
      → Reaches m k n
      → Reaches m k (mark_option slice_id g n)
  unfolding mark_option mark_local
  mark_option-Reaches slice_id k none n r = r
  mark_option-Reaches slice_id k (some g) n r = Reaches-same m k n _ refl refl r

  touch_global_same :
      (g : ℕ) (is_ecc is_secret is_string : Bool) (o : Objects) (n : Buffers)
      → (touch_global g is_ecc is_secret is_string o n).2 ≡ n
  unfolding touch_global
  touch_global_same g true is_secret is_string o n = refl
  touch_global_same g false true is_string o n = refl
  touch_global_same g false false true o n = refl
  touch_global_same g false false false o n = refl

  touch_value-Reaches :
      (slice_id t k : ℕ) (local : Option ℕ) (v : Value) (o : Objects) (n : Buffers)
      → suc k < 2 ^ 32
      → Reaches m k n
      → Reaches m (suc k) (touch_value slice_id t local v o n).2
  unfolding touch_value touch_slot touch_malloc mark_option
  touch_value-Reaches slice_id t k local null_value o n lt r =
      Reaches-weaken m k (suc k) n (omega arith) r
  touch_value-Reaches slice_id t k local (global_variable g a b c) o n lt r =
      rw (touch_global_same g a b c o n) (Reaches-weaken m k (suc k) n (omega arith) r)
  touch_value-Reaches slice_id t k none (stack_slot slot ret) o n lt r =
      number_slot-Reaches t slot k ret n lt r
  touch_value-Reaches slice_id t k (some g) (stack_slot slot ret) o n lt r =
      Reaches-weaken m k (suc k) _ (omega arith) (mark_option-Reaches slice_id k (some g) n r)
  touch_value-Reaches slice_id t k local (malloc_call call) o n lt r =
      number_malloc-Reaches t call k _ lt (mark_option-Reaches slice_id k local n r)
  touch_value-Reaches slice_id t k local other_value o n lt r =
      Reaches-weaken m k (suc k) n (omega arith) r

  unless_done-Reaches :
      (k l : ℕ) (s : Step) (rest : Objects → Buffers → Step)
      → k ≤ l
      → Reaches m k s.2
      → ((o : Objects) (n : Buffers) → Reaches m k n → Reaches m l (rest o n).2)
      → Reaches m l (unless_done s rest).2
  unfolding unless_done
  unless_done-Reaches k l (true, o, n) rest le r h = Reaches-weaken m k l n le r
  unless_done-Reaches k l (false, o, n) rest le r h = h o n r

  touch_targets-Reaches :
      (slice_id k l : ℕ) (ts : List Target) (o : Objects) (n : Buffers)
      → k + length ts ≤ l
      → l < 2 ^ 32
      → Reaches m k n
      → Reaches m l (touch_targets slice_id ts o n).2
  unfolding touch_targets
  touch_targets-Reaches slice_id k l [] o n le lt r = Reaches-weaken m k l n (omega arith) r
  touch_targets-Reaches slice_id k l (t ∷ ts) o n le lt r =
      unless_done-Reaches (suc k) l _ _ (omega arith)
        (touch_value-Reaches slice_id t.node k t.local_node t.value o n (omega arith) r)
        (λ o2 n2 r2. touch_targets-Reaches slice_id (suc k) l ts o2 n2 (omega arith) lt r2)

  module _ (points_to : ℕ → List Target) where
    -- The number of targets of some operands.
    abbrev pub targets : List ℕ → ℕ
    targets [] = 0
    targets (id ∷ ids) = length (points_to id) + targets ids

    touch_operands-Reaches :
        (slice_id k l : ℕ) (ids : List ℕ) (o : Objects) (n : Buffers)
        → k + targets ids ≤ l
        → l < 2 ^ 32
        → Reaches m k n
        → Reaches m l (touch_operands points_to slice_id ids o n).2
    unfolding touch_operands
    touch_operands-Reaches slice_id k l [] o n le lt r = Reaches-weaken m k l n (omega arith) r
    touch_operands-Reaches slice_id k l (id ∷ ids) o n le lt r =
        unless_done-Reaches (k + length (points_to id)) l _ _ (omega arith)
          (touch_targets-Reaches slice_id k (k + length (points_to id)) (points_to id) o n
            (omega arith) (omega arith) r)
          (λ o2 n2 r2.
            touch_operands-Reaches slice_id (k + length (points_to id)) l ids o2 n2 (omega arith) lt
              r2)

    -- As long as the numbers do not run out, `handlePreloadingForSensitiveAccesses` keeps the numbers that
    -- targets have, gives different numbers to different targets, and uses at most one for each target.
    pub handle_sensitive_access_numbers :
        (slice_id op_idx : ℕ) (o : Objects)
        → IsNumbered m
        → m.alloc_id + targets (operands op_idx) < 2 ^ 32
        → IsNumbered (handle_sensitive_access points_to slice_id op_idx o m).1
          × ((handle_sensitive_access points_to slice_id op_idx o m).1.alloc_id
              ≤ m.alloc_id + targets (operands op_idx))
          × ((t : ℕ)
              → (m.buffer t ≡ 0)
                ⊎ ((handle_sensitive_access points_to slice_id op_idx o m).1.buffer t ≡ m.buffer t))
    unfolding handle_sensitive_access
    handle_sensitive_access_numbers slice_id op_idx o numbered lt =
        let r =
          touch_operands-Reaches slice_id m.alloc_id (m.alloc_id + targets (operands op_idx))
            (operands op_idx) o m (omega arith) lt
            (record { numbered = numbered; below = omega arith; kept = λ t p. refl }) in
        (
          r.numbered,
          r.below,
          λ t. elim (Bool-cases (m.buffer t == 0)) [
            | inl absent ↦ inl (ground (arith, ==_iff (m.buffer t) 0))
            | inr present ↦ inr (r.kept t (ground (arith, ==_iff (m.buffer t) 0)))
          ],
        )
