-- ===== src/DefinitionsMap/Get.antt =====
-- `get` and `undefinedIntervals`: what is read of the definitions.
use cape_implementation.Prelude.{
  ℕ, ◌≡◌, ◌≢◌, ◌↔◌, ◌⊎◌, refl, inl, inr, true, false, Option, none, some, List, [], ◌∷◌, arith,
  ==_iff, ◌<◌, elem,
}
use cape_implementation.Offset.{unknown, is_unknown, add}
use cape_implementation.DefSite.{DefSite, get_interval}
use cape_implementation.IntervalMap.{Mapping}
use cape_implementation.IntervalMap.Cut.{IsValid}
use cape_implementation.IntervalMap.Fill.{holds, within}
use cape_implementation.IntervalQuery.Uncovered.{inside}
use cape_implementation.IntervalQuery.Gather.{gather_correct, elem-insert_all}
use cape_implementation.DefinitionsMap.{
  DefinitionsMap, find_target, at_target, mapping_or, interval_of, Definitions, get_nodes,
  get_in_target, get_definitions, or_unknown, undefined_intervals, undefined_in_target,
}
use cape_implementation.DefinitionsMap.Held.{held, IsStored, Fits}

-- The node is held at some byte of the site.
abbrev pub HeldIn : DefinitionsMap → DefSite → ℕ → Type 0
HeldIn d s n =
    (b : ℕ) × (within (get_interval s).0 (get_interval s).1 b ≡ true) × (held d s.target b n ≡ true)

get_in_target_found :
    (s : DefSite) (o : Option Mapping)
    → Fits s
    → ((m : Mapping) → o ≡ some m → IsValid m × (m ≢ []))
    → (found : List ℕ) × (get_in_target s o ≡ some found)
      × ((x : ℕ)
          → (elem x found ≡ true) ↔ (
              (b : ℕ) × (within (get_interval s).0 (get_interval s).1 b ≡ true)
              × (holds (mapping_or o) b x ≡ true)))
unfolding get_in_target
get_in_target_found s none fit st =
    ([], refl, λ x. (λ e. absurd (ground arith), λ (b, w, h). absurd (ground arith)))
get_in_target_found s (some m) fit st =
    gather_correct (interval_of s) m fit.ordered (st m refl).1 (st m refl).0

get_nodes_found :
    (s : DefSite) (d : DefinitionsMap)
    → Fits s
    → IsStored d
    → (found : List ℕ) × (get_nodes s d ≡ some found)
      × ((x : ℕ) → (elem x found ≡ true) ↔ HeldIn d s x)
unfolding get_nodes at_target
get_nodes_found s d fit st = get_in_target_found s (find_target s.target d) fit (st s.target)

-- The two answers of `get`.
abbrev pub IsAnswer : DefSite → Definitions → List ℕ → Type 0
IsAnswer s d found =
    ((n : ℕ) × HeldIn d.definitions s n
      × ((x : ℕ) → (elem x found ≡ true) ↔ HeldIn d.definitions s x))
    ⊎ (((x : ℕ) → ¬ HeldIn d.definitions s x) × ((x : ℕ) → elem x found ≡ elem x d.unknown_writes))

or_unknown-IsAnswer :
    (s : DefSite) (d : Definitions) (found : List ℕ)
    → ((x : ℕ) → (elem x found ≡ true) ↔ HeldIn d.definitions s x)
    → IsAnswer s d (or_unknown d.unknown_writes found)
unfolding or_unknown
or_unknown-IsAnswer s d [] members = inr (
  λ x h. absurd (ground (arith, (members x).1 h)),
  λ x. ground (arith, elem-insert_all d.unknown_writes [] x),
)
or_unknown-IsAnswer s d (n ∷ ns) members =
    inl (n, (members n).0 (ground (arith, ==_iff n n)), members)

-- On valid mappings get returns a set. If the definitions hold a node at a byte of the site, it has exactly
-- the nodes that are held at its bytes, and if they hold none, it has the unknown writes.
pub get_definitions_correct :
    (s : DefSite) (d : Definitions)
    → Fits s
    → IsStored d.definitions
    → (found : List ℕ) × (get_definitions s d ≡ some found) × IsAnswer s d found
unfolding get_definitions
get_definitions_correct s d fit st =
    let (found, e, members) = get_nodes_found s d.definitions fit st in
    (
      or_unknown d.unknown_writes found,
      rw (get_definitions, e) refl,
      or_unknown-IsAnswer s d found members,
    )

-- For an object without definitions and an unknown offset no known byte is inside the intervals that
-- undefinedIntervals returns, although the interval of the site has all bytes.
pub undefined_intervals_miss :
    (s : DefSite) (d : DefinitionsMap) (b : ℕ)
    → s.offset ≡ unknown
    → find_target s.target d ≡ none
    → b < unknown
    → (inside (undefined_intervals s d) b ≡ false)
      × (within (get_interval s).0 (get_interval s).1 b ≡ true)
unfolding undefined_intervals undefined_in_target get_interval add is_unknown
undefined_intervals_miss s d b e f h = rw (f, e) (ground arith)
