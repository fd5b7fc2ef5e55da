-- ===== src/Queue.antt =====
-- include/dg/ADT/Queue.h and include/dg/ADT/SetQueue.h: the containers of pending values, which are named
-- by numbers. A stack has its top first, a queue its front.
pub mod Once
use cape_implementation.Prelude.{
  ℕ, Bool, true, false, Option, none, some, List, [], ◌∷◌, ◌++◌, elem, insert, length,
  if◌then◌else◌,
}

-- `QueueLIFO`, `QueueFIFO` and `PrioritySet` differ in `push` alone. `pop` and `top` of an empty container,
-- which are undefined, are `none`.
unfoldable pub lifo_push : ℕ → List ℕ → List ℕ
lifo_push x q = x ∷ q

unfoldable pub fifo_push : ℕ → List ℕ → List ℕ
fifo_push x q = q ++ x ∷ []

pub priority_push : ℕ → List ℕ → List ℕ
priority_push x q = insert x q

pub pop : List ℕ → Option (ℕ × List ℕ)
pop [] = none
pop (x ∷ q) = some (x, q)

pub top : List ℕ → Option ℕ
top [] = none
top (x ∷ q) = some x

pub empty : List ℕ → Bool
empty [] = true
empty (x ∷ q) = false

pub size : List ℕ → ℕ
size q = length q

pub swap : List ℕ × List ℕ → List ℕ × List ℕ
swap (q, r) = (r, q)

-- `SetQueue`, over the container with the given `push`.
pub record SetQueue : Type 0 where
  pub queued : List ℕ
  pub queue : List ℕ

module _ (push : ℕ → List ℕ → List ℕ) where
  pub set_push : ℕ → SetQueue → SetQueue
  set_push x s =
      if elem x s.queued then s else record { queued = insert x s.queued; queue = push x s.queue }

-- The value that was popped, with the set queue that is left.
pub set_rest : SetQueue → Option (ℕ × List ℕ) → Option (ℕ × SetQueue)
set_rest s none = none
set_rest s (some (x, q)) = some (x, record s { queue = q })

pub set_pop : SetQueue → Option (ℕ × SetQueue)
set_pop s = set_rest s (pop s.queue)
