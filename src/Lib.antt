-- ===== src/Lib.antt =====
-- Cape (a compiler analysis and transformation against cache side channels) on top of the dg library
-- for dependence graphs. The development models the parts below.
--
-- Offset: include/dg/Offset.h, offsets into memory objects with an unknown value. An offset is a
-- number; where it matters a hypothesis says that it fits 64 bits.
--
-- IntervalMap and IntervalQuery: include/dg/ADT/DisjunctiveIntervalMap.h with offsets for bounds. A
-- std::map ordered by its keys is the list of its entries; `lower_bound`, `emplace` and `erase` stand for
-- those of the standard library, and an iterator is the list from its position on. IntervalMap has the
-- writes (`_add`, `splitExtBorders`, `splitIntervalHint`, `_addValue`), IntervalQuery the reads. The
-- invariant (IntervalMap/Cut) is that of `_check`, with the bounds at which the arithmetic of offsets
-- is exact: no interval starts at the unknown offset or ends at the offset just below it. What a read of
-- undefined memory would give is `none`. Loops run over the list of entries; the one loop of the source
-- that can run forever (in `intersection`) takes fuel.
--
-- DefSite: include/dg/ReadWriteGraph/DefSite.h, the intervals of the memory that a node defines.
--
-- IntervalsList: include/dg/ADT/IntervalsList.h, on which the sets of such intervals rest. Iterators are
-- positions in the list; a read of the end of the list is `none`.
--
-- DefinitionsMap: include/dg/MemorySSA/DefinitionsMap.h, Definitions.h beside it, and
-- lib/MemorySSA/Definitions.cpp: an interval map for each memory object, and the definitions and kills of a
-- block with the unknown writes and reads. `update` takes the annotations of a node and the node that counts
-- as the definition; the memory that is UNKNOWN_MEMORY is a parameter. `intersect` takes the fuel of the
-- loop of `intersection`, and `none` is a read of undefined memory or fuel that is used up.
--
-- Queue: include/dg/ADT/Queue.h and include/dg/ADT/SetQueue.h, the containers of work lists.
--
-- Cfg, Preload, Transaction, Placement and Topmost: include/dg/Slicing.h, the part of Cape that puts
-- transactions around the branches that depend on a secret. The handler of a sensitive block,
-- `processBBlockRevCDs` (Topmost), looks for a branch that the block depends on, and from there for a
-- higher one, up the dominators and to the callers (`processBBlockIDomsAndNodeRevCDs`); around it
-- `processHighestBr`, or `placeTransForLoop` for a loop (Placement), inserts the calls that start and end a
-- transaction, and `preloadTransactionCode` (Transaction) marks the blocks between them and inserts the
-- calls that load their code, the functions being collected by `preloadBB` (Preload). `getBrLoopBlocks`
-- (Cfg) finds the loop of a branch. The state is a record of the slices of blocks and nodes, the sets of
-- function names, and the list of the inserted calls; graphs, bitcode and dependences, which other passes
-- build, are records of functions. A failed assertion, a null pointer that is read and fuel that is used up
-- are `none`. `handlePreloadingForSensitiveAccesses` (Sensitive) collects the objects that an access can
-- touch and numbers their buffers, the targets of pointers being a parameter. One amount of fuel serves
-- the recursion and the loops of a call: one more than the number of blocks and functions is enough for
-- each loop, and the recursion of the search ends where its steps lower a rank. Worklist has the search over a stack or a queue that these parts share, Sample the program that
-- the tests use.
--
-- `markSlice` (Marking) is the visit of a node that calls all these, in three passes.
--
-- NodesWalk: include/dg/legacy/NodesWalk.h and the numbering of include/dg/legacy/DFS.h, the walk over the
-- nodes of a dependence graph. The queue holds nodes, each with the walk that enqueued it; the number of
-- the last walk of a node, the counter of walks and the order numbers are unsigned and wrap. The flags
-- choose the kinds of edges, and `processEdges` matches the returns of a function with the call through
-- which the walk came.
-- The queue, the visits and the graph are parameters. The loop takes fuel, and one more than a bound on
-- the nodes is enough. WalkAndMark: `WalkAndMark::mark` of include/dg/Slicing.h, which is that walk with
-- the visits of `markSlice`; what the walk and the visits read of a program are separate records.
--
-- BasicBlock: include/dg/BBlock.h over the sets of include/dg/ADT/DGContainer.h. Blocks are numbers, and a
-- store holds their nodes, labelled edges, predecessors and control dependences, so that an update of
-- a block through another one, or of a block by itself, is seen. Slicer: `BBlock::remove` and
-- `Slicer::sliceBBlocks` of include/dg/Slicing.h; the answer of `removeBlock`, which belongs to the backend,
-- is a parameter, and a flag tells whether the closing assertion of `sliceBBlocks` is built in. As a
-- std::set of pointers is ordered by addresses, the blocks to remove are taken in the order of the graph.
--
-- Bits, Bitvector and NumberSet: include/dg/ADT/Bits.h, include/dg/ADT/Bitvector.h and
-- include/dg/ADT/NumberSet.h. A word of 64 bits is a number, the map of buckets is the list of its
-- entries in the order of the keys, and a set of numbers is a word of small numbers or a vector. The
-- iterator runs over the buckets and the bits of each.
--
-- CdGraph and Ntscd: lib/ControlDependence/CDGraph.h, with the edges of include/dg/BBlockBase.h, and
-- lib/ControlDependence/NTSCD.h. Nodes have the numbers that the graph gives them. NTSCD2 colors, for one
-- target after the other, the nodes from which every path comes to the target, and reads the control
-- dependences off the colors. Its `do … while` takes fuel: a round colors a node, or takes colored nodes
-- out of the frontier and is then followed by one that does not, so twice the number of nodes and two
-- rounds are enough. NTSCD, with counters in place of colors, has a model that is tested.
--
-- Not modelled: `sliceNodes`, the marking of the calls of free and the options of `Slicer::mark`; the walk over
-- blocks of include/dg/legacy; debug locations; and the other parts of the library (pointer analysis, the
-- search of memory SSA, the other algorithms for control dependence, value relations, the LLVM front ends and the tools).
--
-- Pointers are named by numbers. Output and dumps have no model, nor have most assertions; one that the
-- proofs rely on is part of an invariant or a hypothesis.
mod Prelude
mod Worklist
mod Sample
pub mod Bits
pub mod Bitvector
pub mod Cfg
pub mod CdGraph
pub mod Ntscd
pub mod NodesWalk
pub mod NumberSet
pub mod Offset
pub mod IntervalMap
pub mod IntervalsList
pub mod IntervalQuery
pub mod Preload
pub mod Transaction
pub mod Placement
pub mod Topmost
pub mod DefSite
pub mod DefinitionsMap
pub mod Sensitive
pub mod Marking
pub mod Queue
pub mod WalkAndMark
pub mod BasicBlock
pub mod Slicer
