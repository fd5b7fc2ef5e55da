-- ===== src/Preload.antt =====
-- include/dg/Slicing.h: the functions whose code a transaction loads before it starts. Functions and
-- the basic blocks of the bitcode are named by numbers.
pub mod Closure
pub mod Ends
mod Examples
use cape_implementation.Prelude.{
  ℕ, zero, suc, Bool, true, false, ◌||◌, Option, none, some, List, [], ◌∷◌, if◌then◌else◌, elem,
}

-- What the bitcode says: the functions that a basic block calls by name, in order, the basic blocks of
-- a function, and which names contain "llvm.dbg.".
pub record Bitcode : Type 0 where
  pub calls : ℕ → List ℕ
  pub blocks : ℕ → List ℕ
  pub is_debug : ℕ → Bool

-- The set `funcs` of a transaction and the names it was given calls for, the last one first.
pub record Names : Type 0 where
  pub funcs : List ℕ
  pub emitted : List ℕ

unfoldable pub emit : ℕ → Names → Names
emit f s = record { funcs = f ∷ s.funcs; emitted = f ∷ s.emitted }

-- A loop whose body may fail.
unfoldable pub each {ℓ} : {A : Type ℓ} → (ℕ → A → Option A) → List ℕ → A → Option A
each visit [] s = some s
each visit (x ∷ xs) s = elim (visit x s) [ none ↦ none | some t ↦ each visit xs t ]

module _ (code : Bitcode) where
  -- The body of the loop of `preloadBB` for a called function; `inner` is the call of itself.
  unfoldable pub preload_call : (ℕ → Names → Option Names) → ℕ → Names → Option Names
  preload_call inner f s =
      if code.is_debug f || elem f s.funcs then some s else each inner (code.blocks f) (emit f s)

  -- `preloadBB`, with fuel for the depth of its recursion.
  unfoldable pub preload_bb : ℕ → ℕ → Names → Option Names
  preload_bb zero b s = none
  preload_bb (suc fuel) b s = each (preload_call (preload_bb fuel)) (code.calls b) s
