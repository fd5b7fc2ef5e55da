-- ===== src/NodesWalk/Walk.antt =====
-- The whole walk: what it visits, how often, and that it ends.
use cape_implementation.Prelude.{
  ℕ, suc, ◌^◌, ◌≤◌, ◌<◌, ◌≡◌, subst, sym, ap, ◌∙◌, inl, inr, Bool, true, false, List, [], ◌∷◌,
  arith, ◌==◌, elem, Option, some,
}
use native.Mathlib.Nat.{mod-eq_of_lt}
use cape_implementation.Queue.Once.{IsContainer, times}
use cape_implementation.NodesWalk.Ids.{Reached, Tally}
use cape_implementation.NodesWalk.{Graph, Walking, process_plain_edges, next_run, walk}
use cape_implementation.NodesWalk.Follows.{may, must}
use cape_implementation.NodesWalk.Stages.{process_plain_edges-Follows}
use cape_implementation.NodesWalk.Room.{elem-times}
use cape_implementation.NodesWalk.Loop.{
  Found, at_entry, by_edge, by_visit, Invariant, Kept, walk_loop-Invariant, walk_loop_data,
  walk_loop_ends,
}

-- A state from which a walk may start: the queue is empty, no node has a later id than the counter, and
-- the counter does not wrap.
pub record Fresh (counter : ℕ) (s : Walking) : Type 0 where
  pub no_visit : s.visited ≡ []
  pub no_queue : s.pending.queue ≡ []
  pub earlier : (a : ℕ) → s.pending.last_walk a ≤ counter
  pub no_wrap : suc counter < 2 ^ 32

next_run_lem : (counter : ℕ) → suc counter < 2 ^ 32 → next_run counter ≡ suc counter
next_run_lem counter p = mod-eq_of_lt p

module _ {D : Type 0} (push : ℕ → List ℕ → List ℕ) (law : IsContainer push) (g : Graph)
    (visit : ℕ → D → Option (Bool × List ℕ × D)) (options : ℕ) (numbered : Bool) where
  abbrev started : (counter : ℕ) → List ℕ → Walking → Walking
  started counter entry s = process_plain_edges push g (next_run counter) entry s

  start-Invariant :
      (P : ℕ → Type 0) (counter : ℕ) (entry : List ℕ) (s : Walking)
      → Fresh counter s
      → ((x : ℕ) → elem x entry ≡ true → P x)
      → Invariant push law g visit options
          (next_run counter)
          numbered
          entry
          P
          (started counter entry s)
  start-Invariant P counter entry s fresh first =
      let follows = process_plain_edges-Follows g push law (next_run counter) entry in
      let adds = follows.adds P first s in
      let seen : (started counter entry s).visited ≡ [] = follows.keeps s ∙ fresh.no_visit in
      let new : (a : ℕ) → (s.pending.last_walk a == next_run counter) ≡ false =
        λ a. ground (arith, fresh.earlier a, next_run_lem counter fresh.no_wrap) in
      record {
        tally =
            subst (λ l. Tally (next_run counter) l (started counter entry s).pending) (sym seen)
              (adds.tally [] (λ a. ground (arith, new a, ap (λ q. times q a) fresh.no_queue)));
        begun = λ a i. follows.reaches s a i;
        sound = λ a r. elim (adds.sound a r) [
          | inl old ↦ absurd (ground (arith, new a, old))
          | inr p ↦ p
        ];
        closed = λ n t i r. absurd (ground (arith, ap (λ l. elem n l) seen, i));
      }

  Found-Kept :
      (entry : List ℕ) (run : ℕ)
      → Kept push law g visit options run numbered (Found push law g visit options entry)
  Found-Kept entry run = record {
    along = λ n x f e. by_edge f e;
    visits = λ n x d e marked extra f v i. by_visit f v i;
  }

  -- The nodes that a finished walk visited.
  pub record Correct (entry : List ℕ) (t : Walking) : Type 0 where
    pub at_most_once : (a : ℕ) → times t.visited a ≤ 1
    pub entries : (a : ℕ) → elem a entry ≡ true → elem a t.visited ≡ true
    pub complete :
        (n x : ℕ)
        → elem n t.visited ≡ true
        → elem x (must g options n) ≡ true
        → elem x t.visited ≡ true
    pub only_found : (a : ℕ) → elem a t.visited ≡ true → Found push law g visit options entry a

  -- A finished walk from a fresh state visited each node at most once: all entries, with a visited node
  -- every node that an edge of an enabled kind leads to, data and use edges to calls and to stores of the
  -- address of a secret and the edges to the nodes of dependent blocks left out, and no node to which the
  -- edges of the enabled kinds and the visits do not lead.
  pub walk-Correct :
      (fuel counter : ℕ) (entry : List ℕ) (s : Walking) (d : D) (t : Walking) (e : D)
      → Fresh counter s
      → walk push g visit options numbered fuel counter entry (s, d) ≡ some (t, e)
      → Correct entry t
  unfolding walk
  walk-Correct fuel counter entry s d t e fresh w =
      let (inv, drained) =
        walk_loop-Invariant push law g visit options (next_run counter) numbered entry
          (Found push law g visit options entry) fuel (started counter entry s) d t e
          (Found-Kept entry (next_run counter))
          (start-Invariant (Found push law g visit options entry) counter entry s fresh
            (λ x i. at_entry i))
          w in
      let empty : (a : ℕ) → times t.pending.queue a ≡ 0 = λ a. ap (λ q. times q a) drained in
      let seen : (a : ℕ) → Reached (next_run counter) a t.pending → elem a t.visited ≡ true =
        λ a r. (elem-times a t.visited).1 (ground (arith, inv.tally a, empty a, r)) in
      let reached : (a : ℕ) → elem a t.visited ≡ true → Reached (next_run counter) a t.pending =
        λ a i. ground (arith, inv.tally a, (elem-times a t.visited).0 i) in
      record {
        at_most_once = λ a. ground (arith, inv.tally a);
        entries = λ a i. seen a (inv.begun a i);
        complete = λ n x i r. seen x (inv.closed n x i r);
        only_found = λ a i. inv.sound a (reached a i);
      }

  -- All nodes that the graph and the visits lead to are below a bound.
  pub record Bounded (bound : ℕ) (entry : List ℕ) : Type 0 where
    pub entries_below : (x : ℕ) → elem x entry ≡ true → x < bound
    pub edges_below : (n x : ℕ) → n < bound → elem x (may g options n) ≡ true → x < bound
    pub visits_below :
        (n x : ℕ) (d e : D) (marked : Bool) (extra : List ℕ)
        → n < bound
        → visit n d ≡ some (marked, extra, e)
        → elem x extra ≡ true
        → x < bound

  -- From a fresh state, where all nodes to which edges and visits lead are below a bound and no visit fails,
  -- the walk ends with more fuel than the bound, and it visited every node that it must.
  pub walk_ends :
      (bound fuel counter : ℕ) (entry : List ℕ) (s : Walking) (d : D)
      → Fresh counter s
      → Bounded bound entry
      → ((n : ℕ) (c : D) → (r : Bool × List ℕ × D) × (visit n c ≡ some r))
      → bound < fuel
      → (t : Walking) × (e : D) × (walk push g visit options numbered fuel counter entry (s, d)
          ≡ some (t, e))
        × Correct entry t
  unfolding walk
  walk_ends bound fuel counter entry s d fresh below total p =
      let (t, e, w) =
        walk_loop_ends push law g visit options (next_run counter) numbered entry bound fuel
          (started counter entry s) d
          (record { along = below.edges_below; visits = below.visits_below })
          (start-Invariant (λ x. x < bound) counter entry s fresh below.entries_below) total
          (omega arith) in
      (t, e, w, walk-Correct fuel counter entry s d t e fresh w)

  pub walk_data :
      (J : List ℕ → D → Type 0)
      → ((n : ℕ) (vs : List ℕ) (d e : D) (marked : Bool) (extra : List ℕ)
          → visit n d ≡ some (marked, extra, e)
          → J vs d
          → J (n ∷ vs) e)
      → (fuel counter : ℕ) (entry : List ℕ) (s : Walking) (d : D) (t : Walking) (e : D)
      → Fresh counter s
      → J [] d
      → walk push g visit options numbered fuel counter entry (s, d) ≡ some (t, e)
      → J t.visited e
  unfolding walk
  walk_data J keep fuel counter entry s d t e fresh h w =
      let seen : (started counter entry s).visited ≡ [] =
        (process_plain_edges-Follows g push law (next_run counter) entry).keeps s
        ∙ fresh.no_visit in
      walk_loop_data push law g visit options (next_run counter) numbered J keep fuel
        (started counter entry s) d t e (subst (λ vs. J vs d) (sym seen) h) w
