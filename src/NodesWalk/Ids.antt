-- ===== src/NodesWalk/Ids.antt =====
-- The walk ids and the queue of a walk: each node is in the queue or was taken out of it once exactly if it
-- has the id of the run.
use cape_implementation.Prelude.{
  ℕ, ◌+◌, ◌≡◌, ◌⊎◌, subst, ap, Bool-cases, inl, inr, true, List, [], ◌∷◌, arith, ◌==◌, ==_iff, elem,
  if◌then◌else◌,
}
use cape_implementation.Queue.Once.{times, IsContainer}

abbrev pub update {ℓ} : {A : Type ℓ} → (ℕ → A) → ℕ → A → ℕ → A
update f x a y = if x == y then a else f y

pub record Pending : Type 0 where
  pub last_walk : ℕ → ℕ
  pub queue : List ℕ

module _ (push : ℕ → List ℕ → List ℕ) (run : ℕ) where
  -- `NodesWalk::enqueue`, and `BBlockWalk::enqueue`
  unfoldable pub enqueue : ℕ → Pending → Pending
  enqueue x p =
      if p.last_walk x == run
      then p
      else record { last_walk = update p.last_walk x run; queue = push x p.queue }

  unfoldable pub enqueue_all : List ℕ → Pending → Pending
  enqueue_all [] p = p
  enqueue_all (x ∷ xs) p = enqueue_all xs (enqueue x p)

-- The node has the id of the run.
abbrev pub Reached : ℕ → ℕ → Pending → Type 0
Reached run x p = p.last_walk x ≡ run

abbrev pub Tally : ℕ → List ℕ → Pending → Type 0
Tally run visited p =
    (a : ℕ) → times visited a + times p.queue a ≡ (if p.last_walk a == run then 1 else 0)

-- A part of the walk that enqueues nodes of `P`.
pub record Adds (run : ℕ) (P : ℕ → Type 0) (p q : Pending) : Type 0 where
  pub monotone : (a : ℕ) → Reached run a p → Reached run a q
  pub sound : (a : ℕ) → Reached run a q → Reached run a p ⊎ P a
  pub tally : (visited : List ℕ) → Tally run visited p → Tally run visited q

module _ (run : ℕ) (P : ℕ → Type 0) where
  pub Adds-nothing : (p : Pending) → Adds run P p p
  Adds-nothing p = record { monotone = λ a h. h; sound = λ a h. inl h; tally = λ visited h. h }

  pub Adds-then : (p q r : Pending) → Adds run P p q → Adds run P q r → Adds run P p r
  Adds-then p q r h k = record {
    monotone = λ a e. k.monotone a (h.monotone a e);
    sound = λ a e. elim (k.sound a e) [ inl old ↦ h.sound a old | inr new ↦ inr new ];
    tally = λ visited t. k.tally visited (h.tally visited t);
  }

  module _ (push : ℕ → List ℕ → List ℕ) (law : IsContainer push) where
    pub enqueue-Reached : (x : ℕ) (p : Pending) → Reached run x (enqueue push run x p)
    unfolding enqueue
    enqueue-Reached x p = ground arith

    pub enqueue-Adds : (x : ℕ) (p : Pending) → P x → Adds run P p (enqueue push run x p)
    unfolding enqueue
    enqueue-Adds x p px = elim (Bool-cases (p.last_walk x == run)) [
      | inl old ↦ rw old (Adds-nothing p)
      | inr new ↦ rw new (record {
        monotone = λ a e. ground (arith, e);
        sound = λ a e. elim (Bool-cases (x == a)) [
          | inl same ↦ inr (subst P ((==_iff x a).0 same) px)
          | inr other ↦ inl (ground (arith, e))
        ];
        tally = λ visited t a.
            ground (arith, law.times_push p.queue x a, t a, ==_iff x a, ap p.last_walk);
      })
    ]

    pub enqueue_all-Adds :
        (xs : List ℕ) (p : Pending)
        → ((x : ℕ) → elem x xs ≡ true → P x)
        → Adds run P p (enqueue_all push run xs p)
    unfolding enqueue_all
    enqueue_all-Adds [] p h = Adds-nothing p
    enqueue_all-Adds (x ∷ xs) p h =
        Adds-then p (enqueue push run x p) (enqueue_all push run xs (enqueue push run x p))
          (enqueue-Adds x p (h x (ground arith)))
          (enqueue_all-Adds xs (enqueue push run x p) (λ y e. h y (ground (arith, e))))

    pub enqueue_all-Reached :
        (xs : List ℕ) (p : Pending) (x : ℕ)
        → ((y : ℕ) → elem y xs ≡ true → P y)
        → elem x xs ≡ true
        → Reached run x (enqueue_all push run xs p)
    unfolding enqueue_all
    enqueue_all-Reached [] p x h e = absurd (ground arith)
    enqueue_all-Reached (y ∷ xs) p x h e =
        let later : (z : ℕ) → elem z xs ≡ true → P z = λ z q. h z (ground (arith, q)) in
        elim (Bool-cases (y == x)) [
          | inl same ↦ (enqueue_all-Adds xs (enqueue push run y p) later).monotone x (
              subst (λ z. Reached run z (enqueue push run y p)) ((==_iff y x).0 same)
                (enqueue-Reached y p))
          | inr other ↦ enqueue_all-Reached xs (enqueue push run y p) x later (ground (arith, e))
        ]
