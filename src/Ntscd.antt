-- ===== src/Ntscd.antt =====
-- lib/ControlDependence/NTSCD.h: non-termination sensitive control dependence, by the coloring of all nodes
-- from which every path comes to a target (NTSCD2), and by counters (NTSCD).
pub mod Inevitable
pub mod Search
pub mod Rounds
pub mod Target
pub mod Predicates
pub mod Whole
mod Examples
use cape_implementation.Prelude.{
  ℕ, zero, suc, ◌+◌, ◌-◌, ◌%◌, ◌^◌, Bool, true, false, not, ◌||◌, ◌&&◌, Option, none, some, List,
  [], ◌∷◌, ◌==◌, if◌then◌else◌, elem, insert, length, bind,
}
use cape_implementation.NodesWalk.Ids.{update}
use cape_implementation.CdGraph.{CdGraph, node_numbers}
use cape_implementation.Queue.{lifo_push}

-- The control dependences, and the reverse ones.
pub record Dependence : Type 0 where
  pub cd : ℕ → List ℕ
  pub rev_cd : ℕ → List ℕ

unfoldable pub no_dependence : Dependence
no_dependence = record { cd = λ n. []; rev_cd = λ n. [] }

unfoldable pub note_dependence : ℕ → ℕ → Dependence → Dependence
note_dependence n p r = record {
  cd = update r.cd n (insert p (r.cd n));
  rev_cd = update r.rev_cd p (insert n (r.rev_cd p));
}

abbrev pub has_colored : (ℕ → Bool) → List ℕ → Bool
has_colored colored [] = false
has_colored colored (s ∷ ss) = colored s || has_colored colored ss

abbrev pub has_uncolored : (ℕ → Bool) → List ℕ → Bool
has_uncolored colored [] = false
has_uncolored colored (s ∷ ss) = not (colored s) || has_uncolored colored ss

-- The state of a round of NTSCD2.
pub record Coloring : Type 0 where
  pub color : ℕ → ℕ
  pub new_frontier : List ℕ
  pub progress : Bool

module _ (g : CdGraph) where
  -- The loop over the predicates.
  unfoldable pub note_predicates : (ℕ → Bool) → ℕ → List ℕ → Dependence → Dependence
  note_predicates colored n [] r = r
  note_predicates colored n (p ∷ ps) r = note_predicates colored n ps (
      if has_colored colored (g.successors p) && has_uncolored colored (g.successors p)
      then note_dependence n p r
      else r)

  abbrev pub all_colored : ℕ → (ℕ → ℕ) → List ℕ → Bool
  all_colored t color [] = true
  all_colored t color (s ∷ ss) = color s == t && all_colored t color ss

  unfoldable pub insert_uncolored : ℕ → (ℕ → ℕ) → List ℕ → List ℕ → List ℕ
  insert_uncolored t color [] frontier = frontier
  insert_uncolored t color (p ∷ ps) frontier =
      insert_uncolored t color ps (if color p == t then frontier else insert p frontier)

  -- The body of the loop over the frontier.
  unfoldable pub visit : ℕ → ℕ → Coloring → Coloring
  visit t n c =
      let color = update c.color n t in
      if all_colored t c.color (g.successors n)
      then record {
        color = color;
        new_frontier = insert_uncolored t color (g.predecessors n) c.new_frontier;
        progress = true;
      }
      else record c { new_frontier = insert n c.new_frontier }

  unfoldable pub visit_frontier : ℕ → List ℕ → Coloring → Coloring
  visit_frontier t [] c = c
  visit_frontier t (n ∷ ns) c = visit_frontier t ns (visit t n c)

  unfoldable pub round : ℕ → (ℕ → ℕ) → List ℕ → Coloring
  round t color frontier =
      visit_frontier t frontier (record { color = color; new_frontier = []; progress = false })

  -- `do … while (progress)`, on fuel.
  unfoldable pub color_loop : ℕ → ℕ → (ℕ → ℕ) → List ℕ → Option (ℕ → ℕ)
  color_loop zero t color frontier = none
  color_loop (suc fuel) t color frontier =
      let r = round t color frontier in
      let again = color_loop fuel t r.color r.new_frontier in
      if r.progress then again else some r.color

  unfoldable pub color_target : ℕ → ℕ → (ℕ → ℕ) → Option (ℕ → ℕ)
  color_target fuel t color =
      let first = update color t t in
      color_loop fuel t first (insert_uncolored t first (g.predecessors t) [])

  -- `NTSCD2::compute` of a target.
  unfoldable pub compute_target : ℕ → ℕ → (ℕ → ℕ) → Dependence → Option ((ℕ → ℕ) × Dependence)
  compute_target fuel t color r =
      bind (color_target fuel t color)
        (λ after. some (after, note_predicates (λ s. after s == t) t g.predicates r))

  unfoldable pub compute_targets : ℕ → List ℕ → (ℕ → ℕ) → Dependence → Option Dependence
  compute_targets fuel [] color r = some r
  compute_targets fuel (t ∷ ts) color r =
      bind (compute_target fuel t color r) (λ s. compute_targets fuel ts s.0 s.1)

  -- `NTSCD2::compute`
  unfoldable pub compute : ℕ → Option Dependence
  compute fuel = compute_targets fuel (node_numbers g) (λ n. 0) no_dependence

-- The data of a node in NTSCD.
pub record Info : Type 0 where
  pub colored : Bool
  pub counter : ℕ

-- `unsigned short`, also `--`
unfoldable pub decrement : ℕ → ℕ
decrement n = (n + 2 ^ 16 - 1) % 2 ^ 16

unfoldable pub count_down : List ℕ → (ℕ → Info) × List ℕ → (ℕ → Info) × List ℕ
count_down [] s = s
count_down (p ∷ ps) (info, queue) =
    let counter = decrement (info p).counter in
    count_down ps (
      if counter == 0
      then (update info p (record { colored = true; counter = counter }), lifo_push p queue)
      else (update info p (record (info p) { counter = counter }), queue))

module _ (g : CdGraph) where
  unfoldable pub count_search : ℕ → (ℕ → Info) × List ℕ → Option (ℕ → Info)
  count_search zero s = none
  count_search (suc fuel) (info, []) = some info
  count_search (suc fuel) (info, n ∷ queue) =
      count_search fuel (count_down (g.predecessors n) (info, queue))

  unfoldable pub start_info : ℕ → ℕ → Info
  start_info t n = record { colored = n == t; counter = length (g.successors n) % 2 ^ 16 }

  -- `NTSCD::compute` of a target, and of all.
  unfoldable pub count_target : ℕ → ℕ → Option (ℕ → Info)
  count_target fuel t = count_search fuel (start_info t, lifo_push t [])

  unfoldable pub count_targets : ℕ → List ℕ → Dependence → Option Dependence
  count_targets fuel [] r = some r
  count_targets fuel (t ∷ ts) r =
      bind (count_target fuel t)
        (λ info. count_targets fuel ts (note_predicates g (λ s. (info s).colored) t g.predicates r))

  unfoldable pub count_all : ℕ → Option Dependence
  count_all fuel = count_targets fuel (node_numbers g) no_dependence
