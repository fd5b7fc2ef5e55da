-- ===== src/NodesWalk/Flags.antt =====
-- include/dg/legacy/NodesWalk.h: the flags of a walk, and the graph as the walk reads it.
use Prim.Native.Nat.{bit_and}
use cape_implementation.Prelude.{ℕ, Bool, true, false, not, Option, List, ◌==◌}

-- `NodesWalkFlags`
abbrev pub walk_cd : ℕ
walk_cd = 2

abbrev pub walk_dd : ℕ
walk_dd = 4

abbrev pub walk_rev_cd : ℕ
walk_rev_cd = 8

abbrev pub walk_rev_dd : ℕ
walk_rev_dd = 16

abbrev pub walk_use : ℕ
walk_use = 32

abbrev pub walk_user : ℕ
walk_user = 64

abbrev pub walk_id : ℕ
walk_id = 128

abbrev pub walk_rev_id : ℕ
walk_rev_id = 256

abbrev pub walk_bb_cfg : ℕ
walk_bb_cfg = 512

abbrev pub walk_bb_rev_cfg : ℕ
walk_bb_rev_cfg = 1024

abbrev pub walk_bb_postdom_frontiers : ℕ
walk_bb_postdom_frontiers = 4096

-- `options & flag`
abbrev pub flag : ℕ → ℕ → Bool
flag options f = not (bit_and options f == 0)

-- What the key of a node is, as far as the walk asks; each node has a key.
pub data Kind : Type 0 where
  call_key : Kind
  function_key : Kind
  return_key : Kind
  store_key : Kind
  other_key : Kind

-- The name of the edges that `processEdges` gets.
pub data EdgeName : Type 0 where
  cd_name : EdgeName
  dd_name : EdgeName
  use_name : EdgeName
  user_name : EdgeName
  id_name : EdgeName
  bblock_cd_name : EdgeName

-- The graph: the edges of the nodes, the entry node of the graph of a node, the values of the targets that
-- the operand of a store points to (`none` for one without a value) and which of them are secret, and the
-- blocks with their nodes and edges.
pub record Graph : Type 0 where
  pub kind : ℕ → Kind
  pub control : ℕ → List ℕ
  pub rev_control : ℕ → List ℕ
  pub data_edges : ℕ → List ℕ
  pub rev_data : ℕ → List ℕ
  pub uses : ℕ → List ℕ
  pub users : ℕ → List ℕ
  pub interference : ℕ → List ℕ
  pub rev_interference : ℕ → List ℕ
  pub entry_of : ℕ → Option ℕ
  pub stored_targets : ℕ → List (Option ℕ)
  pub is_secret : ℕ → Bool
  pub block_of : ℕ → Option ℕ
  pub block_nodes : ℕ → List ℕ
  pub first_node : ℕ → ℕ
  pub last_node : ℕ → ℕ
  pub control_dependence : ℕ → List ℕ
  pub rev_control_dependence : ℕ → List ℕ
  pub successors : ℕ → List ℕ
  pub predecessors : ℕ → List ℕ
  pub post_dom_frontiers : ℕ → List ℕ

abbrev pub is_call : Kind → Bool
is_call call_key = true
is_call _ = false

abbrev pub is_function : Kind → Bool
is_function function_key = true
is_function _ = false

abbrev pub is_return : Kind → Bool
is_return return_key = true
is_return _ = false

abbrev pub is_store : Kind → Bool
is_store store_key = true
is_store _ = false

abbrev pub is_cd : EdgeName → Bool
is_cd cd_name = true
is_cd _ = false

abbrev pub is_dd : EdgeName → Bool
is_dd dd_name = true
is_dd _ = false

abbrev pub is_use : EdgeName → Bool
is_use use_name = true
is_use _ = false
