-- ===== src/NodesWalk/Calls.antt =====
-- The matching of calls: a walk that came to a function through a call leaves it to that call alone.
use cape_implementation.Prelude.{
  ℕ, ◌≡◌, ◌⊎◌, refl, ap, ◌∙◌, Bool-cases, inl, inr, Bool, true, false, ◌||◌, ◌&&◌, not, List, [],
  ◌∷◌, arith, ◌==◌, ==_iff, if◌then◌else◌, Option, none, some,
}
use cape_implementation.Queue.Once.{IsContainer}
use cape_implementation.NodesWalk.Ids.{Reached, Adds, Adds-nothing, Adds-then, enqueue-Adds}
use cape_implementation.NodesWalk.{
  Graph, Kind, EdgeName, Walking, is_call, is_dd, is_use, call_key, function_key, return_key,
  store_key, other_key, is_unmatched, entry_parent, skips_call, skips, note_parent, enqueue_node,
  process_edge, process_edges,
}

-- The call by which the walk came to the function of a node, where the edges of a name are matched with it.
abbrev pub caller : Graph → EdgeName → Kind → ℕ → Walking → Option ℕ
caller g rt function_key n s = if is_use rt then s.parent n else none
caller g rt return_key n s = if is_use rt || is_dd rt then entry_parent (g.entry_of n) s else none
caller g rt _ n s = none

module _ (g : Graph) where
  note_parent_same :
      (rt : EdgeName) (n cur : ℕ) (s : Walking)
      → is_call (g.kind n) ≡ false
      → note_parent g rt n cur s ≡ s
  unfolding note_parent
  note_parent_same rt n cur s e = rw e refl

  caller-call :
      (rt : EdgeName) (k : Kind) (n p : ℕ) (s : Walking)
      → caller g rt k n s ≡ some p
      → is_call k ≡ false
  caller-call rt function_key n p s e = refl
  caller-call rt return_key n p s e = refl
  caller-call rt call_key n p s e = absurd (ground arith)
  caller-call rt _ n p s e = refl

  guarded_caller :
      (b : Bool) (o : Option ℕ) (p cur : ℕ)
      → (if b then o else none) ≡ some p
      → (b && is_unmatched g o cur) ≡ (is_call (g.kind cur) && not (p == cur))
  unfolding is_unmatched
  guarded_caller true (some q) p cur e = ground (arith, e)
  guarded_caller true none p cur e = absurd (ground arith)
  guarded_caller false o p cur e = absurd (ground arith)

  skips_call-caller :
      (rt : EdgeName) (k : Kind) (n p cur : ℕ) (s : Walking)
      → caller g rt k n s ≡ some p
      → skips_call g rt k n cur s ≡ (is_call (g.kind cur) && not (p == cur))
  unfolding skips_call
  skips_call-caller rt function_key n p cur s e = guarded_caller (is_use rt) (s.parent n) p cur e
  skips_call-caller rt return_key n p cur s e =
      guarded_caller (is_use rt || is_dd rt) (entry_parent (g.entry_of n) s) p cur e
  skips_call-caller rt call_key n p cur s e = absurd (ground arith)
  skips_call-caller rt store_key n p cur s e = absurd (ground arith)
  skips_call-caller rt other_key n p cur s e = absurd (ground arith)

  module _ (push : ℕ → List ℕ → List ℕ) (law : IsContainer push) (run : ℕ) where
    -- No call but the given one.
    abbrev Only : ℕ → ℕ → Type 0
    Only p x = is_call (g.kind x) ≡ true → x ≡ p

    entry_parent-enqueue_node :
        (entry : Option ℕ) (cur : ℕ) (s : Walking)
        → entry_parent entry (enqueue_node push g run cur s) ≡ entry_parent entry s
    unfolding enqueue_node entry_parent
    entry_parent-enqueue_node none cur s = refl
    entry_parent-enqueue_node (some f) cur s = refl

    caller-enqueue_node :
        (rt : EdgeName) (k : Kind) (n cur : ℕ) (s : Walking)
        → caller g rt k n (enqueue_node push g run cur s) ≡ caller g rt k n s
    unfolding enqueue_node entry_parent
    caller-enqueue_node rt function_key n cur s = refl
    caller-enqueue_node rt return_key n cur s =
        ap (λ o. if is_use rt || is_dd rt then o else none)
          (entry_parent-enqueue_node (g.entry_of n) cur s)
    caller-enqueue_node rt call_key n cur s = refl
    caller-enqueue_node rt store_key n cur s = refl
    caller-enqueue_node rt other_key n cur s = refl

    enqueue_node-Only :
        (p cur : ℕ) (s : Walking)
        → Only p cur
        → Adds run (Only p) s.pending (enqueue_node push g run cur s).pending
    unfolding enqueue_node
    enqueue_node-Only p cur s h = enqueue-Adds run (Only p) push law cur s.pending h

    kept_is_matched :
        (rt : EdgeName) (n p cur : ℕ) (s : Walking)
        → caller g rt (g.kind n) n s ≡ some p
        → skips g rt n cur s ≡ false
        → Only p cur
    unfolding skips
    kept_is_matched rt n p cur s e kept c =
        ground (arith, skips_call-caller rt (g.kind n) n p cur s e, kept, c, ==_iff p cur)

    process_edge-matched :
        (rt : EdgeName) (n p cur : ℕ) (s : Walking)
        → caller g rt (g.kind n) n s ≡ some p
        → Adds run (Only p) s.pending (process_edge push g run rt n cur s).pending
          × caller g rt (g.kind n) n (process_edge push g run rt n cur s) ≡ some p
    unfolding process_edge
    process_edge-matched rt n p cur s e =
        let same = note_parent_same rt n cur s (caller-call rt (g.kind n) n p s e) in
        elim (Bool-cases (skips g rt n cur s)) [
          | inl skipped ↦ rw (same, skipped) (Adds-nothing run (Only p) s.pending, e)
          | inr kept ↦
              rw (same, kept)
                (
                  enqueue_node-Only p cur s (kept_is_matched rt n p cur s e kept),
                  caller-enqueue_node rt (g.kind n) n cur s ∙ e,
                )
        ]

    process_edges-matched :
        (rt : EdgeName) (n p : ℕ) (xs : List ℕ) (s : Walking)
        → caller g rt (g.kind n) n s ≡ some p
        → Adds run (Only p) s.pending (process_edges push g run rt n xs s).pending
    unfolding process_edges
    process_edges-matched rt n p [] s e = Adds-nothing run (Only p) s.pending
    process_edges-matched rt n p (cur ∷ xs) s e =
        let step = process_edge-matched rt n p cur s e in
        let next = process_edge push g run rt n cur s in
        Adds-then run (Only p) s.pending next.pending
          (process_edges push g run rt n xs next).pending step.0
          (process_edges-matched rt n p xs next step.1)

    -- From a function to which the walk came through a call, along its use edges, and from a return of such
    -- a function, along its use and data edges, processEdges comes to no new call but that one.
    pub process_edges_return_to_caller :
        (rt : EdgeName) (n p : ℕ) (xs : List ℕ) (s : Walking) (x : ℕ)
        → caller g rt (g.kind n) n s ≡ some p
        → is_call (g.kind x) ≡ true
        → Reached run x (process_edges push g run rt n xs s).pending
        → Reached run x s.pending ⊎ (x ≡ p)
    process_edges_return_to_caller rt n p xs s x e c r =
        elim ((process_edges-matched rt n p xs s e).sound x r) [
          | inl old ↦ inl old
          | inr new ↦ inr (new c)
        ]
