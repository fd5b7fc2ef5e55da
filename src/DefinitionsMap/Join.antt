-- ===== src/DefinitionsMap/Join.antt =====
-- `add` of another map of definitions, as `Definitions::join` uses it.
use cape_implementation.Prelude.{
  ℕ, suc, ◌≡◌, ◌∙◌, sym, ap, refl, Bool-cases, inl, inr, false, ◌||◌, ◌&&◌, none, [], ◌∷◌, arith,
  ◌==◌, ==_iff, leb, elem,
}
use cape_implementation.IntervalMap.{Mapping}
use cape_implementation.IntervalMap.Cut.{IsValid, IsValidFrom, values_at-below}
use cape_implementation.IntervalMap.Fill.{holds}
use cape_implementation.IntervalQuery.{add_all_values, key}
use cape_implementation.IntervalQuery.Several.{add_all_values_correct}
use cape_implementation.DefinitionsMap.{
  DefinitionsMap, find_target, at_target, mapping_or, set_target, add_elems, add_map,
}
use cape_implementation.DefinitionsMap.Held.{held, at_target-set_target, held-set_target}

abbrev pub AllValid : DefinitionsMap → Type 0
AllValid d = (t : ℕ) → IsValid (at_target t d)

-- Each object has one mapping, a valid one.
abbrev pub IsMap : DefinitionsMap → Type 0
IsMap [] = Unit
IsMap ((t, m) ∷ d) = (find_target t d ≡ none) × IsValid m × IsMap d

record Joined (t : ℕ) (es : Mapping) (d after : DefinitionsMap) : Type 0 where
  joined : (u b x : ℕ) → held after u b x ≡ ((t == u && holds es b x) || held d u b x)
  stays_valid : AllValid after

add_elems-Joined :
    (t lo : ℕ) (es : Mapping) (d : DefinitionsMap)
    → IsValidFrom lo es
    → AllValid d
    → Joined t es d (add_elems t es d).0
unfolding add_elems
add_elems-Joined t lo [] d v h = record { joined = λ u b x. ground arith; stays_valid = h }
add_elems-Joined t lo (e ∷ es) d v h =
    let after = (add_all_values (key e) e.values false (at_target t d)).0 in
    let (valid, bytes) = add_all_values_correct (key e) v.1 e.values (at_target t d) (h t) in
    let next_valid : AllValid (set_target t after d) = λ u. elim (Bool-cases (t == u)) [
      | inl same ↦ rw (at_target-set_target t u after d, same) valid
      | inr other ↦ rw (at_target-set_target t u after d, other) (h u)
    ] in
    let rest = add_elems-Joined t (suc e.end) es (set_target t after d) v.2 next_valid in
    record {
      joined = λ u b x.
          let here : t ≡ u → holds (at_target t d) b x ≡ held d u b x =
            λ e. ap (λ z. held d z b x) e in
          let later : leb (suc e.end) b ≡ false → holds es b x ≡ false =
            λ q. ap (elem x) (values_at-below (suc e.end) b es v.2 (ground (arith, q))) in
          ground (
            arith,
            rest.joined u b x,
            held-set_target t u after d b x,
            bytes b x,
            here,
            later,
            ==_iff t u,
          );
      stays_valid = rest.stays_valid;
    }

held_front :
    (t u b x : ℕ) (m : Mapping) (d : DefinitionsMap)
    → find_target t d ≡ none
    → held ((t, m) ∷ d) u b x ≡ ((t == u && holds m b x) || held d u b x)
unfolding at_target find_target
held_front t u b x m d absent = elim (Bool-cases (t == u)) [
  | inl same ↦
      let gone : held d u b x ≡ false =
        ap (λ o. holds (mapping_or o) b x)
          (ap (λ z. find_target z d) (sym ((==_iff t u).0 same)) ∙ absent) in
      rw same (ground (arith, gone))
  | inr other ↦ rw other (ground arith)
]

-- Adding a map in which each object has one valid mapping to a map with valid mappings, a byte of an
-- object holds the nodes that it held in either of the two.
pub held-add_map :
    (rhs d : DefinitionsMap)
    → IsMap rhs
    → AllValid d
    → (t b x : ℕ) → held (add_map rhs d).0 t b x ≡ (held rhs t b x || held d t b x)
unfolding add_map at_target find_target
held-add_map [] d m v t b x = refl
held-add_map ((u, es) ∷ rhs) d m v t b x =
    let j = add_elems-Joined u 0 es d m.1 v in
    ground (
      arith,
      held-add_map rhs (add_elems u es d).0 m.2 j.stays_valid t b x,
      j.joined t b x,
      held_front u t b x es rhs m.0,
    )
