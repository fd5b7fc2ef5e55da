-- ===== src/Queue/Once.antt =====
-- How often a value comes out of a set queue.
use cape_implementation.Prelude.{
  ℕ, ◌+◌, ◌≤◌, ◌≡◌, inl, inr, refl, ap, Bool-cases, false, Option, none, some, List, [], ◌∷◌, arith,
  ◌==◌, ==_iff, elem, elem-insert, if◌then◌else◌,
}
use cape_implementation.Queue.{lifo_push, fifo_push, pop, SetQueue, set_push, set_rest, set_pop}

-- How often a value is in a container or was taken out.
abbrev pub times : List ℕ → ℕ → ℕ
times [] v = 0
times (x ∷ q) v = times q v + (if x == v then 1 else 0)

times-fifo_push : (q : List ℕ) (x v : ℕ) → times (fifo_push x q) v ≡ times (x ∷ q) v
unfolding fifo_push
times-fifo_push [] x v = refl
times-fifo_push (y ∷ q) x v = omega (arith, times-fifo_push q x v)

-- The law of a container: a push adds the value once.
pub record IsContainer (push : ℕ → List ℕ → List ℕ) : Type 0 where
  pub times_push : (q : List ℕ) (x v : ℕ) → times (push x q) v ≡ times (x ∷ q) v

pub lifo_push-IsContainer : IsContainer lifo_push
unfolding lifo_push
lifo_push-IsContainer = record { times_push = λ q x v. refl }

pub fifo_push-IsContainer : IsContainer fifo_push
fifo_push-IsContainer = record { times_push = times-fifo_push }

-- The calls on a set queue; a call of `pop` on an empty one is left out.
pub data Operation : Type 0 where
  push_op : ℕ → Operation
  pop_op : Operation

module _ (push : ℕ → List ℕ → List ℕ) where
  after_pop : Option (ℕ × SetQueue) → SetQueue × List ℕ → SetQueue × List ℕ
  after_pop none r = r
  after_pop (some (x, t)) (s, popped) = (t, x ∷ popped)

  apply_op : Operation → SetQueue × List ℕ → SetQueue × List ℕ
  apply_op (push_op x) (s, popped) = (set_push push x s, popped)
  apply_op pop_op (s, popped) = after_pop (set_pop s) (s, popped)

  -- The set queue after some calls, with the values that came out, the last one first.
  pub run_ops : List Operation → SetQueue × List ℕ → SetQueue × List ℕ
  run_ops [] r = r
  run_ops (op ∷ ops) r = run_ops ops (apply_op op r)

  module _ (law : IsContainer push) where
    record Once (r : SetQueue × List ℕ) : Type 0 where
      at_most : (a : ℕ) → times r.1 a + times r.0.queue a ≤ 1
      known : (a : ℕ) → elem a r.0.queued ≡ false → times r.1 a + times r.0.queue a ≡ 0

    set_push-Once :
        (x : ℕ) (s : SetQueue) (popped : List ℕ)
        → Once (s, popped)
        → Once (set_push push x s, popped)
    unfolding set_push
    set_push-Once x s popped h = elim (Bool-cases (elem x s.queued)) [
      | inl old ↦ rw old h
      | inr new ↦ rw new (record {
        at_most = λ a.
            ground (
              arith,
              law.times_push s.queue x a,
              h.at_most a,
              h.known a,
              ==_iff x a,
              h.known x new,
            );
        known =
            λ a p. ground (arith, law.times_push s.queue x a, h.known a, elem-insert x a s.queued);
      })
    ]

    pop-Once :
        (q : List ℕ) (s : SetQueue) (popped : List ℕ)
        → s.queue ≡ q
        → Once (s, popped)
        → Once (after_pop (set_rest s (pop q)) (s, popped))
    unfolding after_pop set_rest pop
    pop-Once [] s popped e h = h
    pop-Once (x ∷ q) s popped e h = record {
      at_most = λ a. omega (arith, h.at_most a, ap (λ l. times l a) e);
      known = λ a p. omega (arith, h.known a p, ap (λ l. times l a) e);
    }

    apply_op-Once : (op : Operation) (r : SetQueue × List ℕ) → Once r → Once (apply_op op r)
    unfolding apply_op set_pop
    apply_op-Once (push_op x) (s, popped) h = set_push-Once x s popped h
    apply_op-Once pop_op (s, popped) h = pop-Once s.queue s popped refl h

    run_ops-Once : (ops : List Operation) (r : SetQueue × List ℕ) → Once r → Once (run_ops ops r)
    unfolding run_ops
    run_ops-Once [] r h = h
    run_ops-Once (op ∷ ops) r h = run_ops-Once ops (apply_op op r) (apply_op-Once op r h)

    -- Over a container to which a push adds the value once, as a stack and a queue are, a value comes out of
    -- a set queue at most once, whatever is pushed and popped from the empty one on.
    pub run_ops_once :
        (ops : List Operation) (a : ℕ)
        → times (run_ops ops (record { queued = []; queue = [] }, [])).1 a ≤ 1
    run_ops_once ops a =
        let h =
          run_ops-Once ops (record { queued = []; queue = [] }, [])
            (record { at_most = λ b. omega arith; known = λ b p. refl }) in
        omega (arith, h.at_most a)
