-- ===== src/DefinitionsMap/Held.antt =====
-- Which nodes a map of definitions holds at the bytes of an object, after the writes of a node.
use cape_implementation.Prelude.{
  ℕ, ◌≡◌, ◌≢◌, ◌∙◌, sym, ap, subst, refl, Bool, Bool-cases, inl, inr, ◌||◌, ◌&&◌, Option, none,
  some, [], ◌∷◌, arith, ◌==◌, ==_iff, if◌then◌else◌,
}
use cape_implementation.DefSite.{DefSite, get_interval}
use cape_implementation.IntervalMap.{Mapping, add_one}
use cape_implementation.IntervalMap.Cut.{IsFit, IsValid}
use cape_implementation.IntervalMap.Fill.{holds, within}
use cape_implementation.IntervalMap.Add.{add_one-IsWritten}
use cape_implementation.DefinitionsMap.{
  DefinitionsMap, find_target, at_target, set_target, mapping_or, write_site, interval_of,
}

pub find_target-set_target :
    (t u : ℕ) (m : Mapping) (d : DefinitionsMap)
    → find_target u (set_target t m d) ≡ (if t == u then some m else find_target u d)
unfolding find_target set_target
find_target-set_target t u m [] = refl
find_target-set_target t u m ((v, old) ∷ d) =
    ground (arith, find_target-set_target t u m d, ==_iff v t, ==_iff v u, ==_iff t u)

pub at_target-set_target :
    (t u : ℕ) (m : Mapping) (d : DefinitionsMap)
    → at_target u (set_target t m d) ≡ (if t == u then m else at_target u d)
unfolding at_target
at_target-set_target t u m d = elim (Bool-cases (t == u)) [
  | inl same ↦ rw (find_target-set_target t u m d, same) refl
  | inr other ↦ rw (find_target-set_target t u m d, other) refl
]

-- Whether the map holds the node at a byte of an object.
abbrev pub held : DefinitionsMap → ℕ → ℕ → ℕ → Bool
held d t b n = holds (at_target t d) b n

pub held-set_target :
    (t u : ℕ) (m : Mapping) (d : DefinitionsMap) (b x : ℕ)
    → held (set_target t m d) u b x ≡ (if t == u then holds m b x else held d u b x)
held-set_target t u m d b x = elim (Bool-cases (t == u)) [
  | inl same ↦ rw (at_target-set_target t u m d, same) refl
  | inr other ↦ rw (at_target-set_target t u m d, other) refl
]

-- The mappings of a map of definitions are valid, and none is empty.
abbrev pub IsStored : DefinitionsMap → Type 0
IsStored d = (t : ℕ) (m : Mapping) → find_target t d ≡ some m → IsValid m × (m ≢ [])

abbrev pub Fits : DefSite → Type 0
Fits s = IsFit (get_interval s).0 (get_interval s).1

-- Whether the site has the byte of the object.
abbrev pub site_has : DefSite → ℕ → ℕ → Bool
site_has s t b = s.target == t && within (get_interval s).0 (get_interval s).1 b

at_target-IsValid : (d : DefinitionsMap) → IsStored d → (t : ℕ) → IsValid (at_target t d)
unfolding at_target
at_target-IsValid d st t = valid_or (find_target t d) (st t)
  where
    valid_or :
        (o : Option Mapping)
        → ((m : Mapping) → o ≡ some m → IsValid m × (m ≢ []))
        → IsValid (mapping_or o)
    valid_or none h = tt
    valid_or (some m) h = (h m refl).0

module _ (strong : Bool) (s : DefSite) (n : ℕ) (d : DefinitionsMap) (fit : Fits s)
    (st : IsStored d) where
  pub held-write_site :
      (t b x : ℕ)
      → held (write_site strong s n d).0 t b x ≡ (
          if site_has s t b
          then (if strong then n == x else (n == x || held d t b x))
          else held d t b x)
  unfolding write_site
  held-write_site t b x = elim (Bool-cases (s.target == t)) [
    | inl same ↦
        let w =
          add_one-IsWritten (interval_of s) n strong (at_target s.target d) fit
            (at_target-IsValid d st s.target) in
        let here : at_target s.target d ≡ at_target t d =
          ap (λ z. at_target z d) ((==_iff s.target t).0 same) in
        rw
          (
            at_target-set_target s.target t
                (add_one (interval_of s) n strong (at_target s.target d)).0 d,
            same,
          )
          (w.bytes b x ∙ rw here (ground arith))
    | inr other ↦
        rw
          (
            at_target-set_target s.target t
                (add_one (interval_of s) n strong (at_target s.target d)).0 d,
            other,
          )
          refl
  ]

  written_not_empty : (add_one (interval_of s) n strong (at_target s.target d)).0 ≢ []
  written_not_empty e =
      let w =
        add_one-IsWritten (interval_of s) n strong (at_target s.target d) fit
          (at_target-IsValid d st s.target) in
      let none_held = ap (λ m. holds m (get_interval s).0 n) e in
      ground (arith, w.bytes (get_interval s).0 n, none_held, fit.ordered, ==_iff n n)

  pub write_site-IsStored : IsStored (write_site strong s n d).0
  unfolding write_site
  write_site-IsStored t m e =
      let w =
        add_one-IsWritten (interval_of s) n strong (at_target s.target d) fit
          (at_target-IsValid d st s.target) in
      let found =
        sym (
          find_target-set_target s.target t
            (add_one (interval_of s) n strong (at_target s.target d)).0 d)
        ∙ e in
      elim (Bool-cases (s.target == t)) [
        | inl same ↦
            let at_m : (add_one (interval_of s) n strong (at_target s.target d)).0 ≡ m =
              ground (arith, found, same) in
            subst (λ z. IsValid z × (z ≢ [])) at_m (w.valid, written_not_empty)
        | inr other ↦ st t m (ground (arith, found, other))
      ]
