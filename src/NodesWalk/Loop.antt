-- ===== src/NodesWalk/Loop.antt =====
-- The loop of the walk: its invariant, and that it ends.
use cape_implementation.Prelude.{
  ℕ, zero, suc, ◌+◌, ◌≤◌, ◌<◌, ◌≡◌, subst, refl, sym, ap, ◌∙◌, Bool-cases, inl, inr, Bool, true,
  false, List, [], ◌∷◌, arith, ◌==◌, ==_iff, elem, Option, none, some, bind-some, List-cases,
  length,
}
use cape_implementation.Queue.Once.{IsContainer, times}
use cape_implementation.NodesWalk.Ids.{Reached, Tally, Adds, Adds-then}
use cape_implementation.NodesWalk.{
  Graph, Walking, process_node, process_plain_edges, prepare, after_visit, take_node, walk_loop,
}
use cape_implementation.NodesWalk.Follows.{may, must}
use cape_implementation.NodesWalk.Stages.{process_node-Follows, process_plain_edges-Follows}
use cape_implementation.NodesWalk.Room.{elem-times, no_crowd}

take_node_fields :
    (numbered : Bool) (n : ℕ) (rest : List ℕ) (s : Walking)
    → (take_node numbered n rest s).pending ≡ record s.pending { queue = rest }
      × (take_node numbered n rest s).visited ≡ n ∷ s.visited
unfolding take_node prepare
take_node_fields true n rest s = (refl, refl)
take_node_fields false n rest s = (refl, refl)

abbrev result_or : {D : Type 0} → Walking × D → Option (Walking × D) → Walking × D
result_or r none = r
result_or r (some q) = q

abbrev state_or : {D : Type 0} → Walking → Option (Walking × D) → Walking
state_or s none = s
state_or s (some (t, e)) = t

module _ {D : Type 0} (push : ℕ → List ℕ → List ℕ) (law : IsContainer push) (g : Graph)
    (visit : ℕ → D → Option (Bool × List ℕ × D)) (options : ℕ) where
  -- What a walk from `entry` can come to: along the edges of the enabled kinds, and to the nodes that
  -- the visits enqueue.
  pub data Found (entry : List ℕ) : ℕ → Type 0 where
    at_entry : {x : ℕ} → elem x entry ≡ true → Found entry x
    by_edge : {n x : ℕ} → Found entry n → elem x (may g options n) ≡ true → Found entry x
    by_visit :
        {n x : ℕ} {d e : D} {marked : Bool} {extra : List ℕ}
        → Found entry n
        → visit n d ≡ some (marked, extra, e)
        → elem x extra ≡ true
        → Found entry x

  module _ (run : ℕ) (numbered : Bool) where
    pub record Invariant (entry : List ℕ) (P : ℕ → Type 0) (s : Walking) : Type 0 where
      pub tally : Tally run s.visited s.pending
      pub begun : (a : ℕ) → elem a entry ≡ true → Reached run a s.pending
      pub sound : (a : ℕ) → Reached run a s.pending → P a
      pub closed :
          (n t : ℕ)
          → elem n s.visited ≡ true
          → elem t (must g options n) ≡ true
          → Reached run t s.pending

    -- `P` is kept by the walk.
    pub record Kept (P : ℕ → Type 0) : Type 0 where
      pub along : (n x : ℕ) → P n → elem x (may g options n) ≡ true → P x
      pub visits :
          (n x : ℕ) (d e : D) (marked : Bool) (extra : List ℕ)
          → P n
          → visit n d ≡ some (marked, extra, e)
          → elem x extra ≡ true
          → P x

    step-Invariant :
        (entry : List ℕ) (P : ℕ → Type 0) (n : ℕ) (rest : List ℕ) (s : Walking) (d e : D)
        (marked : Bool) (extra : List ℕ)
        → Kept P
        → s.pending.queue ≡ n ∷ rest
        → visit n d ≡ some (marked, extra, e)
        → Invariant entry P s
        → Invariant entry P (
            after_visit push g visit run options n (marked, extra, e) (take_node numbered n rest s))
    unfolding after_visit
    step-Invariant entry P n rest s d e marked extra kept q v h =
        let taken = take_node numbered n rest s in
        let fields = take_node_fields numbered n rest s in
        let first = process_plain_edges-Follows g push law run extra in
        let second = process_node-Follows g push law run options n marked in
        let visiting = process_plain_edges push g run extra taken in
        let after = process_node push g run options n marked visiting in
        let here : Reached run n s.pending = ground (arith, h.tally n, ap (λ q. times q n) q) in
        let adds : Adds run P (record s.pending { queue = rest }) after.pending =
          subst (λ p. Adds run P p after.pending) fields.0
            (Adds-then run P taken.pending visiting.pending after.pending
              (first.adds P (λ x i. kept.visits n x d e marked extra (h.sound n here) v i) taken)
              (second.adds P (λ x i. kept.along n x (h.sound n here) i) visiting)) in
        let seen : after.visited ≡ n ∷ s.visited =
          second.keeps visiting ∙ first.keeps taken ∙ fields.1 in
        let moved : Tally run (n ∷ s.visited) (record s.pending { queue = rest }) =
          λ a. omega (arith, h.tally a, ap (λ q. times q a) q) in
        record {
          tally =
              subst (λ l. Tally run l after.pending) (sym seen) (adds.tally (n ∷ s.visited) moved);
          begun = λ a i. adds.monotone a (h.begun a i);
          sound = λ a r. elim (adds.sound a r) [ inl old ↦ h.sound a old | inr new ↦ new ];
          closed = λ m t i r. elim (Bool-cases (n == m)) [
            | inl same ↦
                second.reaches visiting t
                  (subst (λ k. elem t (must g options k) ≡ true) (sym ((==_iff n m).0 same)) r)
            | inr other ↦
                adds.monotone t (h.closed m t (ground (arith, ap (λ l. elem m l) seen, i)) r)
          ];
        }

    finish :
        (entry : List ℕ) (P : ℕ → Type 0) (s : Walking) (d : D) (t : Walking) (e : D)
        → Invariant entry P s
        → s.pending.queue ≡ []
        → ◌≡◌ {A = Option (Walking × D)} (some (s, d)) (some (t, e))
        → Invariant entry P t × t.pending.queue ≡ []
    finish entry P s d t e h q same =
        subst (λ (u : Walking). Invariant entry P u × u.pending.queue ≡ []) (ap (state_or s) same)
          (h, q)

    no_result :
        {A : Type 0} (t : Walking) (e : D) → ◌≡◌ {A = Option (Walking × D)} none (some (t, e)) → A
    no_result t e same = absurd (ground arith)

    -- The loop keeps the invariant, and what was reached stays reached.
    pub walk_loop-Invariant :
        (entry : List ℕ) (P : ℕ → Type 0) (fuel : ℕ) (s : Walking) (d : D) (t : Walking) (e : D)
        → Kept P
        → Invariant entry P s
        → walk_loop push g visit run options numbered fuel (s, d) ≡ some (t, e)
        → Invariant entry P t × t.pending.queue ≡ []
    unfolding walk_loop
    walk_loop-Invariant entry P zero s d t e kept h w = elim (List-cases s.pending.queue) [
      | inl q ↦ finish entry P s d t e h q (rw q at w)
      | inr (n, rest, q) ↦ no_result t e (rw q at w)
    ]
    walk_loop-Invariant entry P (suc fuel) s d t e kept h w = elim (List-cases s.pending.queue) [
      | inl q ↦ finish entry P s d t e h q (rw q at w)
      | inr (n, rest, q) ↦
          let (r, v, w1) = bind-some (visit n d) _ _ (rw q at w) in
          walk_loop-Invariant entry P fuel
            (after_visit push g visit run options n r (take_node numbered n rest s)) r.2 t e kept
            (step-Invariant entry P n rest s d r.2 r.0 r.1 kept q v h) w1
    ]

    step_visited :
        (n : ℕ) (rest : List ℕ) (s : Walking) (r : Bool × List ℕ × D)
        → (after_visit push g visit run options n r (take_node numbered n rest s)).visited
          ≡ n ∷ s.visited
    unfolding after_visit
    step_visited n rest s (marked, extra, e) =
        let taken = take_node numbered n rest s in
        (process_node-Follows g push law run options n marked).keeps
          (process_plain_edges push g run extra taken)
        ∙ (process_plain_edges-Follows g push law run extra).keeps taken
        ∙ (take_node_fields numbered n rest s).1

    same_data :
        (J : List ℕ → D → Type 0) (s : Walking) (d : D) (t : Walking) (e : D)
        → J s.visited d
        → ◌≡◌ {A = Option (Walking × D)} (some (s, d)) (some (t, e))
        → J t.visited e
    same_data J s d t e h same =
        subst (λ (r : Walking × D). J r.0.visited r.1) (ap (result_or (s, d)) same) h

    -- What each visit keeps of the visited nodes and the data holds at the end.
    pub walk_loop_data :
        (J : List ℕ → D → Type 0)
        → ((n : ℕ) (vs : List ℕ) (d e : D) (marked : Bool) (extra : List ℕ)
            → visit n d ≡ some (marked, extra, e)
            → J vs d
            → J (n ∷ vs) e)
        → (fuel : ℕ) (s : Walking) (d : D) (t : Walking) (e : D) → J s.visited d
        → walk_loop push g visit run options numbered fuel (s, d) ≡ some (t, e)
        → J t.visited e
    unfolding walk_loop
    walk_loop_data J keep zero s d t e h w = elim (List-cases s.pending.queue) [
      | inl q ↦ same_data J s d t e h (rw q at w)
      | inr (n, rest, q) ↦ no_result t e (rw q at w)
    ]
    walk_loop_data J keep (suc fuel) s d t e h w = elim (List-cases s.pending.queue) [
      | inl q ↦ same_data J s d t e h (rw q at w)
      | inr (n, rest, q) ↦
          let (r, v, w1) = bind-some (visit n d) _ _ (rw q at w) in
          let next = after_visit push g visit run options n r (take_node numbered n rest s) in
          walk_loop_data J keep fuel next r.2 t e
            (subst (λ vs. J vs r.2) (sym (step_visited n rest s r))
              (keep n s.visited d r.2 r.0 r.1 v h))
            w1
    ]

    -- With fuel for all nodes the loop ends.
    pub walk_loop_ends :
        (entry : List ℕ) (bound fuel : ℕ) (s : Walking) (d : D)
        → Kept (λ x. x < bound)
        → Invariant entry (λ x. x < bound) s
        → ((n : ℕ) (c : D) → (r : Bool × List ℕ × D) × (visit n c ≡ some r))
        → bound < fuel + length s.visited
        → (t : Walking) × (e : D) × (walk_loop push g visit run options numbered fuel (s, d)
            ≡ some (t, e))
    unfolding walk_loop
    walk_loop_ends entry bound zero s d kept h total enough =
        let few : length s.visited ≤ bound =
          no_crowd bound s.visited (λ a. ground (arith, h.tally a))
            (λ a i. h.sound a (ground (arith, h.tally a, (elem-times a s.visited).0 i))) in
        absurd (omega arith)
    walk_loop_ends entry bound (suc fuel) s d kept h total enough =
        elim (List-cases s.pending.queue) [
          | inl q ↦ (s, d, simp q refl)
          | inr (n, rest, q) ↦
              let (r, v) = total n d in
              let after = after_visit push g visit run options n r (take_node numbered n rest s) in
              let (t, e, w) =
                walk_loop_ends entry bound fuel after r.2 kept
                  (step-Invariant entry (λ x. x < bound) n rest s d r.2 r.0 r.1 kept q v h) total
                  (omega (arith, ap (length {A = ℕ}) (step_visited n rest s r))) in
              (t, e, rw (q, v) w)
        ]
