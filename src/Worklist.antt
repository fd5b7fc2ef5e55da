-- ===== src/Worklist.antt =====
-- A search that keeps a list of blocks to expand and a set of blocks that were ever put there, as the
-- loops of the repository do it: `push` is that of a stack (QueueLIFO) or of a queue (QueueFIFO).
pub mod Reach
pub mod Ends
use cape_implementation.Prelude.{
  ℕ, zero, suc, Bool, true, false, Option, none, some, List, [], ◌∷◌, ◌++◌, if◌then◌else◌, elem,
}

abbrev pub push_front : ℕ → List ℕ → List ℕ
push_front x q = x ∷ q

abbrev pub push_back : ℕ → List ℕ → List ℕ
push_back x q = q ++ x ∷ []

-- `seen` is the set of all that was ever pushed or was barred from the start, `pending` the
-- container, `expanded` what was popped, the last one first.
pub record Search : Type 0 where
  pub seen : List ℕ
  pub pending : List ℕ
  pub expanded : List ℕ

module _ (push : ℕ → List ℕ → List ℕ) where
  -- if (seen.insert(x).second) pending.push(x);
  unfoldable pub offer : ℕ → Search → Search
  offer x s =
      if elem x s.seen then s else record s { seen = x ∷ s.seen; pending = push x s.pending }

  unfoldable pub offer_all : List ℕ → Search → Search
  unfolding offer
  offer_all [] s = s
  offer_all (x ∷ xs) s = offer_all xs (offer x s)

  -- The body of the loop, `cur` being popped with `rest` left.
  unfoldable pub expand : (ℕ → List ℕ) → Search → ℕ → List ℕ → Search
  unfolding offer_all
  expand next s cur rest =
      offer_all (next cur) (record s { pending = rest; expanded = cur ∷ s.expanded })

  -- while (!pending.empty()); `none` when the fuel is used up.
  unfoldable pub explore : (ℕ → List ℕ) → ℕ → Search → Option Search
  unfolding expand
  explore next zero s = elim s.pending [ [] ↦ some s | _ ∷ _ ↦ none ]
  explore next (suc fuel) s = elim s.pending [
    | [] ↦ some s
    | cur ∷ rest ↦ explore next fuel (expand next s cur rest)
  ]
