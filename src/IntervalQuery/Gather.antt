-- ===== src/IntervalQuery/Gather.antt =====
-- `gather` returns exactly the values that the map holds at some byte of the interval.
use cape_implementation.Prelude.{
  ℕ, suc, max, ◌≤◌, ◌<◌, ◌≡◌, ◌≢◌, ◌↔◌, inl, inr, refl, sym, ◌∙◌, Bool, Bool-cases, true, false,
  ◌&&◌, ◌||◌, none, some, List, [], ◌∷◌, ◌++◌, arith, leb, elem, insert, elem-insert, All,
}
use cape_implementation.IntervalMap.{Interval, Mapping, starts_after, lower_bound}
use cape_implementation.IntervalMap.Cut.{IsValidFrom, IsValid}
use cape_implementation.IntervalMap.Fill.{holds, within}
use cape_implementation.IntervalQuery.{key_overlaps, insert_all, gather_loop, gather, le, shift_le}
use cape_implementation.IntervalQuery.Find.{Found, le_finds, after_valid}

pub elem-insert_all :
    (vs ret : List ℕ) (x : ℕ) → elem x (insert_all vs ret) ≡ (elem x vs || elem x ret)
unfolding insert_all
elem-insert_all [] ret x = refl
elem-insert_all (v ∷ vs) ret x =
    ground (arith, elem-insert_all vs (insert v ret) x, elem-insert v x ret)

module _ (i : Interval) (x : ℕ) where
  -- Some entry that meets the interval holds `x`.
  meets : Mapping → Bool
  meets [] = false
  meets (e ∷ m) = (leb e.start i.end && leb i.start e.end && elem x e.values) || meets m

  abbrev pub Byte : Mapping → Type 0
  Byte m = (b : ℕ) × (within i.start i.end b ≡ true) × (holds m b x ≡ true)

  meets_of_byte :
      (m : Mapping) (b : ℕ) → within i.start i.end b ≡ true → holds m b x ≡ true → meets m ≡ true
  unfolding meets
  meets_of_byte [] b w h = cc
  meets_of_byte (e ∷ m) b w h = ground (arith, meets_of_byte m b)

  byte_of_meets :
      (lo : ℕ) (m : Mapping)
      → i.start ≤ i.end
      → IsValidFrom lo m
      → meets m ≡ true
      → (b : ℕ) × (within i.start i.end b ≡ true) × (holds m b x ≡ true) × (lo ≤ b)
  unfolding meets
  byte_of_meets lo [] f v h = cc
  byte_of_meets lo (e ∷ m) f v h =
      elim (Bool-cases (leb e.start i.end && leb i.start e.end && elem x e.values)) [
        | inl here ↦ (max e.start i.start, ground arith, ground arith, ground arith)
        | inr other ↦
            let (b, w, k, le) = byte_of_meets (suc e.end) m f v.2 (rw (other, meets) at h) in
            (b, w, ground arith, omega arith)
      ]

  meets_front :
      (front m : Mapping) → All (λ e. e.end < i.start) front → meets (front ++ m) ≡ meets m
  unfolding meets
  meets_front [] m a = refl
  meets_front (e ∷ front) m a = ground (arith, meets_front front m a.1)

  meets_after : (lo : ℕ) (m : Mapping) → i.end < lo → IsValidFrom lo m → meets m ≡ false
  unfolding meets
  meets_after lo [] h v = refl
  meets_after lo (e ∷ m) h v = ground (arith, meets_after (suc e.end) m)

  gather_loop_lem :
      (lo : ℕ) (m : Mapping) (ret : List ℕ)
      → i.start ≤ i.end
      → IsValidFrom lo m
      → All (λ e. i.start ≤ e.end) m
      → elem x (gather_loop i m ret) ≡ (elem x ret || meets m)
  unfolding gather_loop key_overlaps meets
  gather_loop_lem lo [] ret f v a = ground arith
  gather_loop_lem lo (e ∷ m) ret f v a = ground (
    arith,
    gather_loop_lem (suc e.end) m (insert_all e.values ret) f v.2 a.1,
    elem-insert_all e.values ret x,
    meets_after (suc e.end) m,
  )

  gather-Found :
      (m from : Mapping)
      → i.start ≤ i.end
      → Found i m from
      → elem x (gather_loop i from []) ≡ meets m
  unfolding gather_loop
  gather-Found m from f h = elim (Bool-cases (starts_after h.rest i.end)) [
    | inl gap ↦
        rw (h.result, gap, h.whole, meets_front h.front h.rest h.before)
          (sym
            (meets_after (suc i.end) h.rest (omega arith) (after_valid i.end h.rest h.valid gap)))
    | inr next ↦
        rw (h.result, next, h.whole, meets_front h.front h.rest h.before)
          (gather_loop_lem 0 h.rest [] f h.valid h.behind)
  ]

-- On a valid map that is not empty `gather` returns a set; a value is in it exactly when the map
-- holds the value at some byte of the interval.
pub gather_correct :
    (i : Interval) (m : Mapping)
    → i.start ≤ i.end
    → m ≢ []
    → IsValid m
    → (s : List ℕ) × (gather i m ≡ some s) × ((x : ℕ) → (elem x s ≡ true) ↔ Byte i x m)
unfolding gather
gather_correct i m f n v =
    let (from, found, h) = le_finds i m f n v in
    (
      gather_loop i from [],
      rw (found, gather),
      λ x.
          let same = gather-Found i x m from f h in
          (
            λ e. let (b, w, k, _) = byte_of_meets i x 0 m f v (sym same ∙ e) in (b, w, k),
            λ (b, w, k). same ∙ meets_of_byte i x m b w k,
          ),
    )

-- On an empty map `gather` steps back from the end of an empty container.
gather_empty : (i : Interval) → gather i [] ≡ none
unfolding gather le shift_le lower_bound
gather_empty i = refl
