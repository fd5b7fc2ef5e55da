-- ===== src/Sample.antt =====
-- A small program for the tests: block 0 is the entry, 1 the header of a loop with the body 2, and 3 the exit;
-- the nodes of block `b` are `2 * b` and `2 * b + 1`, and the last one of block 1 is a branch.
pub mod Shape
use cape_implementation.Prelude.{
  ℕ, zero, suc, ◌+◌, ◌*◌, ◌/◌, true, false, Option, none, some, List, [], ◌∷◌, ◌==◌, if◌then◌else◌,
}
use cape_implementation.Cfg.{Cfg}
use cape_implementation.Preload.{Bitcode}
use cape_implementation.Transaction.{br, other, Program, State, Objects}
use cape_implementation.Topmost.{Dependences}

abbrev pub preds : ℕ → List ℕ
preds zero = []
preds (suc zero) = 0 ∷ 2 ∷ []
preds (suc (suc zero)) = 1 ∷ []
preds (suc (suc (suc zero))) = 1 ∷ []
preds (suc (suc (suc (suc n)))) = []

abbrev pub succs : ℕ → List ℕ
succs zero = 1 ∷ []
succs (suc zero) = 2 ∷ 3 ∷ []
succs (suc (suc zero)) = 1 ∷ []
succs (suc (suc (suc n))) = []

abbrev pub up : ℕ → Option ℕ
up zero = none
up (suc zero) = some 0
up (suc (suc zero)) = some 1
up (suc (suc (suc zero))) = some 1
up (suc (suc (suc (suc n)))) = none

abbrev pub down : ℕ → Option ℕ
down zero = some 1
down (suc zero) = some 3
down (suc (suc zero)) = some 1
down (suc (suc (suc n))) = none

abbrev pub sample_graph : Cfg
sample_graph = record { successors = succs; predecessors = preds; idom = up; ipostdom = down }

abbrev pub sample_code : Bitcode
sample_code = record {
  calls = λ b. if b == 2 then 1 ∷ [] else [];
  blocks = λ f. [];
  is_debug = λ f. false;
}

abbrev pub sample : Program
sample = record {
  graph = sample_graph;
  code = sample_code;
  first_node = λ b. some (2 * b);
  last_node = λ b. some (2 * b + 1);
  block_of = λ i. some (i / 2);
  opcode = λ i. if i == 3 then br else other;
  following = λ i. [];
  basic_block = λ i. i / 2;
  function_of = λ i. 0;
}

-- Block 2 and its first node depend on block 1 and its branch.
abbrev pub sample_dependences : Dependences
sample_dependences = record {
  rev_control = λ i. if i == 4 then 3 ∷ [] else [];
  rev_control_blocks = λ b. if b == 2 then 1 ∷ [] else [];
  is_function = λ i. false;
  in_graph = λ i j. true;
}

-- All blocks and nodes are marked with the slice `v`.
abbrev pub marked_with : ℕ → State
marked_with v = record { block_slice = λ b. v; node_slice = λ i. v; funcs = λ i. []; calls = [] }

abbrev pub some_objects : Objects
some_objects = record { allocs = 4 ∷ []; mallocs = 5 ∷ []; globals = [] }

abbrev pub state_of : Option State → State
state_of none = marked_with 0
state_of (some s) = s
