-- ===== src/WalkAndMark.antt =====
-- include/dg/Slicing.h: `WalkAndMark::mark`, the walk that visits the nodes with `markSlice`, and
-- `Slicer::mark` around it.
pub mod Marks
pub mod Ends
mod Examples
use cape_implementation.Prelude.{
  ℕ, zero, suc, ◌+◌, ◌%◌, ◌^◌, Bool, true, false, Option, none, some, List, [], ◌∷◌, ◌++◌, ◌==◌,
  if◌then◌else◌, bind,
}
use cape_implementation.Queue.{fifo_push}
use cape_implementation.Transaction.{Program}
use cape_implementation.Topmost.{Dependences}
use cape_implementation.Marking.{
  Accesses, Marking, mark_pass_zero, mark_pass_one, mark_pass_two, slice_of,
}
use cape_implementation.NodesWalk.{
  Graph, Walking, walk, walk_cd, walk_dd, walk_use, walk_id, walk_rev_cd, walk_rev_dd, walk_user,
  walk_rev_id,
}

-- The flags that the constructor gives the walk.
unfoldable pub walk_options : Bool → ℕ
walk_options true = walk_cd + walk_dd + walk_use + walk_id
walk_options false = walk_rev_cd + walk_rev_dd + walk_user + walk_id + walk_rev_id

-- The nodes in the order in which they were enqueued.
unfoldable pub in_order : List ℕ → List ℕ
in_order [] = []
in_order (x ∷ xs) = in_order xs ++ x ∷ []

-- The type of the result of `mark`, uint16_t.
unfoldable pub narrow : ℕ → ℕ
narrow n = n % 2 ^ 16

module _ (p : Program) (d : Dependences) (a : Accesses) where
  unfoldable pub visit_zero : ℕ → ℕ → ℕ → Marking → Option (Bool × List ℕ × Marking)
  visit_zero fuel slice_id n m =
      bind (mark_pass_zero p d a fuel slice_id n (record m { enqueued = [] }))
        (λ r. some (r.0, in_order r.1.enqueued, r.1))

  -- A visit in the other passes enqueues nothing.
  unfoldable pub visit_later :
      (ℕ → Marking → Option Marking) → ℕ → Marking → Option (Bool × List ℕ × Marking)
  visit_later pass n m = bind (pass n m) (λ t. some (true, [], t))

  -- `markSlice`
  unfoldable pub mark_slice : ℕ → ℕ → ℕ → ℕ → Marking → Option (Bool × List ℕ × Marking)
  mark_slice pass fuel sl_id n m =
      if pass == 0
      then visit_zero fuel (slice_of sl_id) n m
      else if pass == 1
      then visit_later (mark_pass_one p d a fuel (slice_of sl_id)) n m
      else visit_later (mark_pass_two p d a fuel (slice_of sl_id)) n m

  module _ (g : Graph) where
    -- `WalkAndMark::mark`, with the last number of a buffer; `fuel` serves the visits and `steps` the walk.
    unfoldable pub mark :
        ℕ → ℕ → ℕ → ℕ → List ℕ → ℕ → ℕ → Walking × Marking → Option (ℕ × Walking × Marking)
    mark pass fuel steps counter start sl_id buff_id (s, m) =
        bind
          (walk fifo_push g (mark_slice pass fuel sl_id) (walk_options a.forward) false steps
            counter start (s, record m { buffers = record m.buffers { alloc_id = buff_id } }))
          (λ r. some (narrow r.1.buffers.alloc_id, r.0, r.1))
