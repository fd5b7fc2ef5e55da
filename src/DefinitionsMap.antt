-- ===== src/DefinitionsMap.antt =====
-- include/dg/MemorySSA/DefinitionsMap.h and Definitions.h, lib/MemorySSA/Definitions.cpp: which node defines
-- which bytes of which memory object. Nodes and objects are named by numbers.
pub mod Held
pub mod Update
pub mod Join
pub mod Get
mod Examples
use cape_implementation.Prelude.{
  ℕ, zero, suc, ◌-◌, Bool, true, false, ◌||◌, Option, none, some, List, [], ◌∷◌, ◌++◌, ◌==◌, ltb,
  if◌then◌else◌, elem,
}
use cape_implementation.Offset.{add, sub}
use cape_implementation.DefSite.{DefSite, get_interval}
use cape_implementation.IntervalMap.{Interval, Mapping, add_one}
use cape_implementation.IntervalQuery.{
  add_all, add_all_values, gather, insert_all, intersection, key, uncovered,
}

abbrev pub DefinitionsMap : Type 0
DefinitionsMap = List (ℕ × Mapping)

-- `find` and `operator[]` of the map, and the assignment through it.
unfoldable pub find_target : ℕ → DefinitionsMap → Option Mapping
find_target t [] = none
find_target t ((u, m) ∷ d) = if u == t then some m else find_target t d

abbrev pub mapping_or : Option Mapping → Mapping
mapping_or none = []
mapping_or (some m) = m

unfoldable pub at_target : ℕ → DefinitionsMap → Mapping
at_target t d = mapping_or (find_target t d)

unfoldable pub set_target : ℕ → Mapping → DefinitionsMap → DefinitionsMap
set_target t m [] = (t, m) ∷ []
set_target t m ((u, old) ∷ d) =
    if ltb t u
    then (t, m) ∷ (u, old) ∷ d
    else if u == t
    then (t, m) ∷ d
    else (u, old) ∷ set_target t m d

abbrev pub interval_of : DefSite → Interval
interval_of s = record { start = (get_interval s).0; end = (get_interval s).1 }

-- `add` and `update` of one node
unfoldable pub write_site : Bool → DefSite → ℕ → DefinitionsMap → DefinitionsMap × Bool
write_site strong s n d =
    let r = add_one (interval_of s) n strong (at_target s.target d) in
    (set_target s.target r.0 d, r.1)

-- `addAll`
unfoldable pub add_to_targets : ℕ → DefinitionsMap → DefinitionsMap × Bool
add_to_targets n [] = ([], false)
add_to_targets n ((t, m) ∷ d) =
    let r = add_all n m in let rest = add_to_targets n d in ((t, r.0) ∷ rest.0, r.1 || rest.1)

-- `add` of several nodes, and the `update` of a vector of them
unfoldable pub write_nodes : Bool → DefSite → List ℕ → DefinitionsMap → DefinitionsMap × Bool
write_nodes strong s [] d = (d, false)
write_nodes strong s (n ∷ ns) d =
    let r = write_site strong s n d in
    let rest = write_nodes strong s ns r.0 in (rest.0, r.1 || rest.1)

-- `add` of several definition sites
unfoldable pub add_sites : List DefSite → ℕ → DefinitionsMap → DefinitionsMap × Bool
add_sites [] n d = (d, false)
add_sites (s ∷ ss) n d =
    let r = write_site false s n d in let rest = add_sites ss n r.0 in (rest.0, r.1 || rest.1)

-- `add` of the intervals of another mapping
unfoldable pub add_elems : ℕ → Mapping → DefinitionsMap → DefinitionsMap × Bool
add_elems t [] d = (d, false)
add_elems t (e ∷ es) d =
    let r = add_all_values (key e) e.values false (at_target t d) in
    let rest = add_elems t es (set_target t r.0 d) in (rest.0, r.1 || rest.1)

-- `add` of another map
unfoldable pub add_map : DefinitionsMap → DefinitionsMap → DefinitionsMap × Bool
add_map [] d = (d, false)
add_map ((t, m) ∷ rhs) d =
    let r = add_elems t m d in let rest = add_map rhs r.0 in (rest.0, r.1 || rest.1)

-- `get`
unfoldable pub get_in_target : DefSite → Option Mapping → Option (List ℕ)
get_in_target s none = some []
get_in_target s (some m) = gather (interval_of s) m

unfoldable pub get_nodes : DefSite → DefinitionsMap → Option (List ℕ)
get_nodes s d = get_in_target s (find_target s.target d)

-- `undefinedIntervals`
unfoldable pub undefined_in_target : DefSite → Option Mapping → List Interval
undefined_in_target s none = record { start = s.offset; end = add s.offset (sub s.len 1) } ∷ []
undefined_in_target s (some m) = uncovered (interval_of s) m

unfoldable pub undefined_intervals : DefSite → DefinitionsMap → List Interval
undefined_intervals s d = undefined_in_target s (find_target s.target d)

unfoldable pub defines_target : ℕ → DefinitionsMap → Bool
defines_target t d = elim (find_target t d) [ none ↦ false | some _ ↦ true ]

unfoldable pub filter : (ℕ → Bool) → DefinitionsMap → DefinitionsMap
filter keep [] = []
filter keep ((t, m) ∷ d) = let rest = filter keep d in if keep t then (t, m) ∷ rest else rest

-- `intersect`; the fuel is that of the loops of `intersection`.
unfoldable pub intersect_target :
    ℕ → ℕ → Mapping → Option Mapping → DefinitionsMap → Option DefinitionsMap
intersect_target fuel t m none result = some result
intersect_target fuel t m (some other) result = elim (intersection fuel m other) [
  | none ↦ none
  | some both ↦ some (add_elems t both result).0
]

unfoldable pub intersect_from :
    ℕ → DefinitionsMap → DefinitionsMap → DefinitionsMap → Option DefinitionsMap
intersect_from fuel [] rhs result = some result
intersect_from fuel ((t, m) ∷ d) rhs result =
    elim (intersect_target fuel t m (find_target t rhs) result) [
      | none ↦ none
      | some next ↦ intersect_from fuel d rhs next
    ]

unfoldable pub intersect : ℕ → DefinitionsMap → DefinitionsMap → Option DefinitionsMap
intersect fuel d rhs = intersect_from fuel d rhs []

-- `Definitions`
pub record Definitions : Type 0 where
  pub processed : Bool
  pub definitions : DefinitionsMap
  pub kills : DefinitionsMap
  pub unknown_writes : List ℕ
  pub unknown_reads : List ℕ

-- The annotations of a node, as `update` reads them.
pub record Annotations : Type 0 where
  pub defines : List DefSite
  pub overwrites : List DefSite
  pub uses : List DefSite

unfoldable pub add_unknown_write : ℕ → Definitions → Definitions
add_unknown_write n d = record d { unknown_writes = d.unknown_writes ++ n ∷ [] }

unfoldable pub add_unknown_read : ℕ → Definitions → Definitions
add_unknown_read n d = record d { unknown_reads = d.unknown_reads ++ n ∷ [] }

module _ (unknown_memory : ℕ) where
  unfoldable pub uses_unknown : List DefSite → Bool
  uses_unknown [] = false
  uses_unknown (s ∷ ss) = s.target == unknown_memory || uses_unknown ss

  unfoldable pub update_define : DefSite → ℕ → Definitions → Definitions
  update_define s n d =
      if s.target == unknown_memory
      then add_unknown_write n (record d { definitions = (add_to_targets n d.definitions).0 })
      else record d { definitions = (write_site false s n d.definitions).0 }

  unfoldable pub update_defines : List DefSite → ℕ → Definitions → Definitions
  update_defines [] n d = d
  update_defines (s ∷ ss) n d = update_defines ss n (update_define s n d)

  unfoldable pub update_overwrites : List DefSite → ℕ → Definitions → Definitions
  update_overwrites [] n d = d
  update_overwrites (s ∷ ss) n d = update_overwrites ss n (record d {
    kills = (write_site false s n d.kills).0;
    definitions = (write_site true s n d.definitions).0;
  })

  -- `Definitions::update`, with the node that counts as the definition.
  unfoldable pub update_definitions : Annotations → ℕ → Definitions → Definitions
  update_definitions a n d =
      let written = update_overwrites a.overwrites n (update_defines a.defines n d) in
      if uses_unknown a.uses then add_unknown_read n written else written

-- `Definitions::join`
unfoldable pub join : ℕ → Definitions → Definitions → Option Definitions
join fuel rhs d = elim (intersect fuel d.kills rhs.kills) [
  | none ↦ none
  | some both ↦ some (record d {
    definitions = (add_map rhs.definitions d.definitions).0;
    kills = both;
    unknown_writes = d.unknown_writes ++ rhs.unknown_writes;
    unknown_reads = d.unknown_reads ++ rhs.unknown_reads;
  })
]

-- `Definitions::get`
unfoldable pub or_unknown : List ℕ → List ℕ → List ℕ
or_unknown unknown_ones [] = insert_all unknown_ones []
or_unknown unknown_ones (n ∷ ns) = n ∷ ns

unfoldable pub get_definitions : DefSite → Definitions → Option (List ℕ)
get_definitions s d = elim (get_nodes s d.definitions) [
  | none ↦ none
  | some found ↦ some (or_unknown d.unknown_writes found)
]
