-- ===== src/WalkAndMark/Marks.antt =====
-- The slices of nodes after the first pass.
use cape_implementation.Prelude.{
  ℕ, ◌<◌, ◌≡◌, subst, refl, sym, ap, ◌∙◌, Bool-cases, inl, inr, Bool, false, ◌||◌, ◌&&◌, not,
  Option, none, some, List, [], ◌∷◌, arith, ◌==◌, ==_iff, if◌then◌else◌, bind-some, elem,
}
use cape_implementation.Queue.{fifo_push}
use cape_implementation.Queue.Once.{fifo_push-IsContainer}
use cape_implementation.Transaction.{Program, set_at}
use cape_implementation.Topmost.{Dependences}
use cape_implementation.Marking.{Accesses, Marking, mark_pass_zero, slice_of, reads_secret}
use cape_implementation.Marking.First.{is_marked_now, mark_pass_zero_marks}
use cape_implementation.NodesWalk.{Graph, Walking, walk}
use cape_implementation.NodesWalk.Walk.{Fresh, Correct, walk-Correct, walk_data}
use cape_implementation.WalkAndMark.{walk_options, visit_zero, mark_slice, mark}

-- One more number is visited, and its value set if it is zero and not to be skipped.
set_one_more :
    (v n x : ℕ) (cur before : ℕ → ℕ) (skip : ℕ → Bool) (vs : List ℕ)
    → 0 < v
    → ((y : ℕ) → cur y ≡ (if elem y vs && (before y == 0 && not (skip y)) then v else before y))
    → (if cur n == 0 && not (skip n) then set_at cur n v else cur) x
      ≡ (if (n == x || elem x vs) && (before x == 0 && not (skip x)) then v else before x)
set_one_more v n x cur before skip vs p h =
    let old : n ≡ x → cur n ≡ cur x = λ e. ap cur e in
    let was : n ≡ x → before n ≡ before x = λ e. ap before e in
    let skipped : n ≡ x → skip n ≡ skip x = λ e. ap skip e in
    elim (Bool-cases (cur n == 0 && not (skip n))) [
      | inl now ↦ rw now (ground (arith, h x, old, skipped, was, ==_iff n x, now))
      | inr later ↦ rw later (ground (arith, h x, h n, old, skipped, was, ==_iff n x, later))
    ]

-- What a visit leaves.
abbrev pub marking_or : Marking → Option (Bool × List ℕ × Marking) → Marking
marking_or m none = m
marking_or m (some (marked, extra, t)) = t

module _ (p : Program) (d : Dependences) (a : Accesses) where
  -- The slice of a node after its visit, if it had none and is no access of a secret object.
  abbrev pub slice_after : ℕ → (ℕ → ℕ) → List ℕ → ℕ → ℕ
  slice_after slice_id before visited x =
      if elem x visited
        && (before x == 0 && not (a.is_instruction x && reads_secret p d a x (a.access x)))
      then slice_id
      else before x

  visit_zero-slices :
      (fuel slice_id n : ℕ) (m t : Marking) (marked : Bool) (extra : List ℕ)
      → visit_zero p d a fuel slice_id n m ≡ some (marked, extra, t)
      → t.state.node_slice ≡ (
          if is_marked_now p d a n m
          then set_at m.state.node_slice n slice_id
          else m.state.node_slice)
  unfolding visit_zero
  visit_zero-slices fuel slice_id n m t marked extra e =
      let (r, v, e1) =
        bind-some (mark_pass_zero p d a fuel slice_id n (record m { enqueued = [] })) _ _ e in
      let same : r.1 ≡ t = ap (marking_or m) e1 in
      ap (λ (u : Marking). u.state.node_slice) (sym same)
      ∙ mark_pass_zero_marks p d a fuel slice_id n (record m { enqueued = [] }) r.0 r.1 v

  -- A visit marks its node and no other.
  visit_zero-slice_after :
      (fuel slice_id n : ℕ) (before : ℕ → ℕ) (vs : List ℕ) (m t : Marking) (marked : Bool)
      (extra : List ℕ)
      → 0 < slice_id
      → visit_zero p d a fuel slice_id n m ≡ some (marked, extra, t)
      → ((x : ℕ) → m.state.node_slice x ≡ slice_after slice_id before vs x)
      → (x : ℕ) → t.state.node_slice x ≡ slice_after slice_id before (n ∷ vs) x
  visit_zero-slice_after fuel slice_id n before vs m t marked extra positive e h x =
      ap (λ f. f x) (visit_zero-slices fuel slice_id n m t marked extra e)
      ∙ set_one_more slice_id n x m.state.node_slice before
          (λ y. a.is_instruction y && reads_secret p d a y (a.access y)) vs positive h

  module _ (g : Graph) where
    -- A finished walk, with the slices it leaves.
    abbrev pub Marked : ℕ → ℕ → List ℕ → (ℕ → ℕ) → Walking × Marking → Type 0
    Marked fuel sl_id start before (after, t) =
        Correct fifo_push fifo_push-IsContainer g (mark_slice p d a 0 fuel sl_id)
          (walk_options a.forward) false start after
        × ((x : ℕ) → t.state.node_slice x ≡ slice_after (slice_of sl_id) before after.visited x)

    walk-Marked :
        (fuel steps counter sl_id : ℕ) (start : List ℕ) (s : Walking) (m : Marking)
        (r : Walking × Marking)
        → Fresh counter s
        → 0 < slice_of sl_id
        → walk fifo_push g
            (mark_slice p d a 0 fuel sl_id)
            (walk_options a.forward)
            false
            steps
            counter
            start
            (s, m)
          ≡ some r
        → Marked fuel sl_id start m.state.node_slice r
    unfolding mark_slice
    walk-Marked fuel steps counter sl_id start s m r fresh positive w = (
      walk-Correct fifo_push fifo_push-IsContainer g (mark_slice p d a 0 fuel sl_id)
          (walk_options a.forward) false steps counter start s m r.0 r.1 fresh w,
      walk_data fifo_push fifo_push-IsContainer g (mark_slice p d a 0 fuel sl_id)
          (walk_options a.forward) false
          (λ vs (u : Marking).
            (x : ℕ) → u.state.node_slice x ≡ slice_after (slice_of sl_id) m.state.node_slice vs x)
          (λ n vs u v marked extra e h.
            visit_zero-slice_after fuel (slice_of sl_id) n m.state.node_slice vs u v marked extra
              positive e h)
          steps counter start s m r.0 r.1 fresh (λ x. refl) w,
    )

    abbrev result_or : Walking × Marking → Option (ℕ × Walking × Marking) → Walking × Marking
    result_or r none = r
    result_or r (some (last, after, t)) = (after, t)

    -- Where mark returns in the first pass from a fresh state, its walk visited the right nodes, each
    -- once, and the visited nodes that had no slice and are no accesses of a secret object have the slice
    -- of the run, all other nodes the slice they had.
    pub mark_slices :
        (fuel steps counter sl_id buff_id : ℕ) (start : List ℕ) (s : Walking) (m : Marking)
        (last : ℕ) (after : Walking) (t : Marking)
        → Fresh counter s
        → 0 < slice_of sl_id
        → mark p d a g 0 fuel steps counter start sl_id buff_id (s, m) ≡ some (last, after, t)
        → Marked fuel sl_id start m.state.node_slice (after, t)
    unfolding mark
    mark_slices fuel steps counter sl_id buff_id start s m last after t fresh positive e =
        let started = record m { buffers = record m.buffers { alloc_id = buff_id } } in
        let (r, w, e1) =
          bind-some
            (walk fifo_push g (mark_slice p d a 0 fuel sl_id) (walk_options a.forward) false steps
              counter start (s, started))
            _ _ e in
        subst (Marked fuel sl_id start m.state.node_slice) (ap (result_or r) e1)
          (walk-Marked fuel steps counter sl_id start s started r fresh positive w)
