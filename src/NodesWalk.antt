-- ===== src/NodesWalk.antt =====
-- include/dg/legacy/NodesWalk.h: the walk over the nodes of a dependence graph, with the numbering that
-- legacy/DFS.h adds. A walk id in each node tells whether the node was enqueued in the current run.
mod Flags
pub mod Ids
pub mod Follows
pub mod Skips
pub mod Stages
pub mod Calls
pub mod Room
pub mod Loop
pub mod Walk
mod Examples
pub use Flags.*
use cape_implementation.Prelude.{
  ℕ, zero, suc, ◌+◌, ◌%◌, ◌^◌, Bool, true, false, not, ◌||◌, ◌&&◌, Option, none, some, List, [],
  ◌∷◌, map, ◌==◌, if◌then◌else◌, bind,
}
use cape_implementation.Queue.{pop}
use cape_implementation.NodesWalk.Ids.{Pending, enqueue, enqueue_all, update}

-- The state: the walk ids and the queue, the parents of function nodes, the order numbers and the last of
-- them, and the nodes that were processed, the last one first.
pub record Walking : Type 0 where
  pub pending : Pending
  pub parent : ℕ → Option ℕ
  pub order : ℕ → ℕ
  pub last_order : ℕ
  pub visited : List ℕ

-- The blocks of the edges between blocks.
abbrev pub of_block : (ℕ → List ℕ) → Option ℕ → List ℕ
of_block blocks none = []
of_block blocks (some b) = blocks b

-- `prepare`: nothing, or the number of the node in a depth-first walk.
unfoldable pub prepare : Bool → ℕ → Walking → Walking
prepare false n s = s
prepare true n s = record s {
  order = update s.order n (suc s.last_order % 2 ^ 32);
  last_order = suc s.last_order % 2 ^ 32;
}

unfoldable pub entry_parent : Option ℕ → Walking → Option ℕ
entry_parent none s = none
entry_parent (some entry) s = s.parent entry

-- The stages whose flag is set.
unfoldable pub run_stages : ℕ → List (ℕ × (Walking → Walking)) → Walking → Walking
run_stages options [] s = s
run_stages options ((f, stage) ∷ rest) s =
    run_stages options rest (if flag options f then stage s else s)

module _ (g : Graph) where
  -- The loop over the targets of a stored pointer.
  unfoldable pub address_taken : List (Option ℕ) → Bool
  address_taken [] = false
  address_taken (none ∷ ts) = address_taken ts
  address_taken (some v ∷ ts) = g.is_secret v || address_taken ts

  -- A call that is not the one by which the walk came to the function.
  unfoldable pub is_unmatched : Option ℕ → ℕ → Bool
  is_unmatched none cur = false
  is_unmatched (some p) cur = is_call (g.kind cur) && not (p == cur)

  -- The first two `continue`s, for an edge from a function or a return.
  unfoldable pub skips_call : EdgeName → Kind → ℕ → ℕ → Walking → Bool
  skips_call rt function_key n cur s = is_use rt && is_unmatched (s.parent n) cur
  skips_call rt return_key n cur s =
      (is_use rt || is_dd rt) && is_unmatched (entry_parent (g.entry_of n) s) cur
  skips_call rt _ n cur s = false

  -- The last two, for a data or use edge to a call or a store.
  unfoldable pub skips_target : EdgeName → Kind → ℕ → Bool
  skips_target rt source cur =
      (is_dd rt || is_use rt)
      && (is_call (g.kind cur) && not (is_return source) && not (is_function source)
          || is_store (g.kind cur) && address_taken (g.stored_targets cur))

  -- `cur->parent = n`
  unfoldable pub note_parent : EdgeName → ℕ → ℕ → Walking → Walking
  note_parent rt n cur s =
      if is_call (g.kind n) && is_cd rt && is_function (g.kind cur)
      then record s { parent = update s.parent cur (some n) }
      else s

  -- One of the four.
  unfoldable pub skips : EdgeName → ℕ → ℕ → Walking → Bool
  skips rt n cur s = skips_call rt (g.kind n) n cur s || skips_target rt (g.kind n) cur

module _ (push : ℕ → List ℕ → List ℕ) (g : Graph) (run : ℕ) where
  unfoldable pub enqueue_node : ℕ → Walking → Walking
  enqueue_node x s = record s { pending = enqueue push run x s.pending }

  unfoldable pub process_edge : EdgeName → ℕ → ℕ → Walking → Walking
  process_edge rt n cur s =
      let t = note_parent g rt n cur s in if skips g rt n cur t then t else enqueue_node cur t

  -- `processEdges` with a node, and without one.
  unfoldable pub process_edges : EdgeName → ℕ → List ℕ → Walking → Walking
  process_edges rt n [] s = s
  process_edges rt n (cur ∷ edges) s = process_edges rt n edges (process_edge rt n cur s)

  unfoldable pub process_plain_edges : List ℕ → Walking → Walking
  process_plain_edges xs s = record s { pending = enqueue_all push run xs s.pending }

  unfoldable pub process_bblock_rev_cds : ℕ → Walking → Walking
  process_bblock_rev_cds n s =
      process_plain_edges (map g.last_node (of_block g.rev_control_dependence (g.block_of n))) s

  unfoldable pub process_blocks : ℕ → List ℕ → Walking → Walking
  process_blocks n [] s = s
  process_blocks n (b ∷ bs) s =
      process_blocks n bs (process_edges bblock_cd_name n (g.block_nodes b) s)

  unfoldable pub process_bblock_cds : ℕ → Walking → Walking
  process_bblock_cds n s = process_blocks n (of_block g.control_dependence (g.block_of n)) s

  unfoldable pub process_bblock_cfg : ℕ → Walking → Walking
  process_bblock_cfg n s =
      process_plain_edges (map g.first_node (of_block g.successors (g.block_of n))) s

  unfoldable pub process_bblock_rev_cfg : ℕ → Walking → Walking
  process_bblock_rev_cfg n s =
      process_plain_edges (map g.last_node (of_block g.predecessors (g.block_of n))) s

  unfoldable pub process_bblock_post_dom_frontiers : ℕ → Walking → Walking
  process_bblock_post_dom_frontiers n s =
      process_plain_edges (map g.last_node (of_block g.post_dom_frontiers (g.block_of n))) s

  unfoldable pub process_cd : ℕ → Bool → Walking → Walking
  process_cd n marked s =
      let t = process_edges cd_name n (g.control n) s in
      if marked then process_bblock_cds n t else t

  unfoldable pub process_rev_cd : ℕ → Walking → Walking
  process_rev_cd n s = process_bblock_rev_cds n (process_plain_edges (g.rev_control n) s)

  -- The `if`s of the loop body, one after the other; each has its flag.
  abbrev pub stages : ℕ → Bool → List (ℕ × (Walking → Walking))
  stages n marked =
      (walk_cd, process_cd n marked)
      ∷ (walk_rev_cd, process_rev_cd n)
      ∷ (walk_dd, process_edges dd_name n (g.data_edges n))
      ∷ (walk_rev_dd, process_plain_edges (g.rev_data n))
      ∷ (walk_use, process_edges use_name n (g.uses n))
      ∷ (walk_user, process_edges user_name n (g.users n))
      ∷ (walk_id, process_edges id_name n (g.interference n))
      ∷ (walk_rev_id, process_plain_edges (g.rev_interference n))
      ∷ (walk_bb_cfg, process_bblock_cfg n)
      ∷ (walk_bb_rev_cfg, process_bblock_rev_cfg n)
      ∷ (walk_bb_postdom_frontiers, process_bblock_post_dom_frontiers n)
      ∷ []

  -- `options == 0` leaves all edges alone.
  unfoldable pub process_node : ℕ → ℕ → Bool → Walking → Walking
  process_node options n marked s =
      if options == 0 then s else run_stages options (stages n marked) s

-- A node is taken out of the queue.
unfoldable pub take_node : Bool → ℕ → List ℕ → Walking → Walking
take_node numbered n rest s =
    prepare numbered n
      (record s { pending = record s.pending { queue = rest }; visited = n ∷ s.visited })

-- The next walk id, of type `unsigned int`.
abbrev pub next_run : ℕ → ℕ
next_run counter = suc counter % 2 ^ 32

-- A visit of the analysis: an answer, the nodes that it enqueues, and its data; `none` if it fails.
module _ {D : Type 0} (push : ℕ → List ℕ → List ℕ) (g : Graph)
    (visit : ℕ → D → Option (Bool × List ℕ × D)) where
  unfoldable pub after_visit : ℕ → ℕ → ℕ → Bool × List ℕ × D → Walking → Walking
  after_visit run options n (marked, extra, d) s =
      process_node push g run options n marked (process_plain_edges push g run extra s)

  -- while (!queue.empty()); `none` when the fuel is used up.
  unfoldable pub walk_loop : ℕ → ℕ → Bool → ℕ → Walking × D → Option (Walking × D)
  walk_loop run options numbered zero (s, d) = elim s.pending.queue [
    | [] ↦ some (s, d)
    | _ ∷ _ ↦ none
  ]
  walk_loop run options numbered (suc fuel) (s, d) = elim s.pending.queue [
    | [] ↦ some (s, d)
    | n ∷ rest ↦ bind (visit n d) (λ r.
        walk_loop run options numbered fuel
          (after_visit run options n r (take_node numbered n rest s), r.2))
  ]

  unfoldable pub walk : ℕ → Bool → ℕ → ℕ → List ℕ → Walking × D → Option (Walking × D)
  walk options numbered fuel counter entry (s, d) =
      walk_loop (next_run counter) options numbered fuel
        (process_plain_edges push g (next_run counter) entry s, d)
