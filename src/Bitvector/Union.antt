-- ===== src/Bitvector/Union.antt =====
-- The union of two sparse bit vectors, and what its answer tells.
use Prim.Native.Nat.{bit_or}
use cape_implementation.Prelude.{
  ℕ, suc, ◌+◌, ◌-◌, ◌%◌, ◌<◌, ◌≡◌, refl, ap, arith, ◌==◌, Bool, true, false, ◌||◌, ◌&&◌, ◌⊎◌, inl,
  inr, [], ◌∷◌, Option-cases,
}
use cape_implementation.Bits.{word_bits, modulus, has_bit}
use cape_implementation.Bits.Laws.{
  has_bit-bit_or, has_bit_of_zero, word_or_bound, bit_or_positive, word_apart, modulus_positive,
}
use cape_implementation.Bitvector.{
  Bitvector, find, shift, get, get_in, or_zero, union_bucket, set_union,
}
use cape_implementation.Bitvector.Buckets.{
  Buckets, WellFormed, assign-Buckets, find-bucket, find_low, shift_unique,
}
use cape_implementation.Bitvector.Members.{get-assign, place_bound}

-- The bucket of the other vector as a predicate.
abbrev pub in_bucket : ℕ → ℕ → ℕ → Bool
in_bucket k w j = k == shift j && has_bit w (j - shift j)

pub get-cons :
    (j k w low : ℕ) (m : Bitvector)
    → Buckets low ((k, w) ∷ m)
    → get j ((k, w) ∷ m) ≡ (in_bucket k w j || get j m)
unfolding get get_in find
get-cons j k w low m h = ground (arith, find_low (shift j) (suc k) m h.4)

find-or_zero : (k low : ℕ) (m : Bitvector) → Buckets low m → or_zero (find k m) < modulus
unfolding or_zero
find-or_zero k low m h = elim (Option-cases (find k m)) [
  | inl e ↦ rw e modulus_positive
  | inr (w, e) ↦ rw e (find-bucket k w low m h e).0
]

get-or_zero : (j : ℕ) (m : Bitvector) → get j m ≡ has_bit (or_zero (find (shift j) m)) (j - shift j)
unfolding get get_in or_zero
get-or_zero j m = elim (Option-cases (find (shift j) m)) [
  | inl e ↦ rw e (ground (arith, has_bit_of_zero (j - shift j) (place_bound j)))
  | inr (w, e) ↦ rw e refl
]

-- The bit of the old bucket at the place of `j`.
bucket-get :
    (k j : ℕ) (m : Bitvector) → k ≡ shift j → get j m ≡ has_bit (or_zero (find k m)) (j - shift j)
bucket-get k j m e = rw e (get-or_zero j m)

module _ (k w : ℕ) (m : Bitvector) (multiple : k % word_bits ≡ 0) (below : w < modulus)
    (well : WellFormed m) where
  joined_bound : bit_or (or_zero (find k m)) w < modulus
  joined_bound = word_or_bound (or_zero (find k m)) w (find-or_zero k 0 m well) below

  has_bit-joined :
      (i : ℕ)
      → i < word_bits
      → has_bit (bit_or (or_zero (find k m)) w) i ≡ (has_bit (or_zero (find k m)) i || has_bit w i)
  has_bit-joined i p = has_bit-bit_or (or_zero (find k m)) w i (find-or_zero k 0 m well) below p

  get-union_bucket : (j : ℕ) → get j (union_bucket k w m).1 ≡ (in_bucket k w j || get j m)
  unfolding union_bucket
  get-union_bucket j = ground (
    arith,
    get-assign k j (bit_or (or_zero (find k m)) w) m,
    bucket-get k j m,
    has_bit-joined (j - shift j) (place_bound j),
  )

  union_bucket-WellFormed : 0 < w → WellFormed (union_bucket k w m).1
  unfolding union_bucket
  union_bucket-WellFormed p =
      assign-Buckets k (bit_or (or_zero (find k m)) w) 0 m (omega arith) multiple
        (bit_or_positive (or_zero (find k m)) w (find-or_zero k 0 m well) below p) joined_bound well

  -- Either nothing changes and the bits were there, or some bit was missing.
  union_bucket-cases :
      ((union_bucket k w m).0 ≡ false × ((j : ℕ) → in_bucket k w j ≡ true → get j m ≡ true))
      ⊎ ((union_bucket k w m).0 ≡ true × ((j : ℕ) × (in_bucket k w j ≡ true) × (get j m ≡ false)))
  unfolding union_bucket
  union_bucket-cases =
      elim (word_apart (or_zero (find k m)) (bit_or (or_zero (find k m)) w)
        (find-or_zero k 0 m well) joined_bound) [
          | inl same ↦ inl (
            ground (arith, same),
            λ j p. ground (
              arith,
              bucket-get k j m,
              has_bit-joined (j - shift j) (place_bound j),
              ap (λ v. has_bit v (j - shift j)) same,
            ),
          )
          | inr (i, q, apart) ↦
              let differ : or_zero (find k m) ≡ bit_or (or_zero (find k m)) w → ⊥ =
                λ e. apart (ap (λ v. has_bit v i) e) in
              let place : shift (k + i) ≡ k × k + i - shift (k + i) ≡ i =
                shift_unique (k + i) k i multiple q refl in
              let bits : has_bit (or_zero (find k m)) i ≡ false × has_bit w i ≡ true =
                ground (arith, has_bit-joined i q, apart) in
              let at_place : has_bit w (k + i - shift (k + i)) ≡ true = rw place.1 bits.1 in
              let old_place : has_bit (or_zero (find k m)) (k + i - shift (k + i)) ≡ false =
                rw place.1 bits.0 in
              inr (
                ground (arith, differ),
                (
                  k + i,
                  ground (arith, place.0, at_place),
                  ground (arith, bucket-get k (k + i) m, place.0, old_place),
                ),
              )
        ]

pub get_nil : (j : ℕ) → get j [] ≡ false
unfolding get get_in find
get_nil j = refl

-- The union has the bits of both.
pub get-set_union :
    (rhs : Bitvector) (low j : ℕ) (m : Bitvector)
    → Buckets low rhs
    → WellFormed m
    → get j (set_union rhs m).1 ≡ (get j rhs || get j m)
unfolding set_union
get-set_union [] low j m h well = rw (get_nil j) refl
get-set_union ((k, w) ∷ rhs) low j m h well = ground (
  arith,
  get-cons j k w low rhs h,
  get-union_bucket k w m h.1 h.3 well j,
  get-set_union rhs (suc k) j (union_bucket k w m).1 h.4
      (union_bucket-WellFormed k w m h.1 h.3 well h.2),
)

pub set_union-WellFormed :
    (rhs : Bitvector) (low : ℕ) (m : Bitvector)
    → Buckets low rhs
    → WellFormed m
    → WellFormed (set_union rhs m).1
unfolding set_union
set_union-WellFormed [] low m h well = well
set_union-WellFormed ((k, w) ∷ rhs) low m h well =
    set_union-WellFormed rhs (suc k) (union_bucket k w m).1 h.4
      (union_bucket-WellFormed k w m h.1 h.3 well h.2)

-- The answer of a union: no bit is new, or some bit is.
pub set_union-answer :
    (rhs : Bitvector) (low : ℕ) (m : Bitvector)
    → Buckets low rhs
    → WellFormed m
    → ((set_union rhs m).0 ≡ false × ((j : ℕ) → get j rhs ≡ true → get j m ≡ true))
      ⊎ ((set_union rhs m).0 ≡ true × ((j : ℕ) × (get j rhs ≡ true) × (get j m ≡ false)))
unfolding set_union
set_union-answer [] low m h well = inl (refl, λ j p. absurd (ground (arith, get_nil j)))
set_union-answer ((k, w) ∷ rhs) low m h well =
    let middle = (union_bucket k w m).1 in
    let joined : (j : ℕ) → get j middle ≡ (in_bucket k w j || get j m) =
      get-union_bucket k w m h.1 h.3 well in
    let both : (j : ℕ) → get j ((k, w) ∷ rhs) ≡ (in_bucket k w j || get j rhs) =
      λ j. get-cons j k w low rhs h in
    elim (union_bucket-cases k w m h.1 h.3 well) [
      | inr (flag, (j, inside, absent)) ↦
          inr (ground (arith, flag), (j, ground (arith, both j), absent))
      | inl (same, held) ↦
          elim (set_union-answer rhs (suc k) middle h.4
            (union_bucket-WellFormed k w m h.1 h.3 well h.2)) [
              | inl (calm, rest) ↦ inl (
                ground (arith, same, calm),
                λ j p. ground (arith, held j, rest j, joined j, both j),
              )
              | inr (flag, (j, inside, absent)) ↦
                  inr (ground (arith, flag), (j, ground (arith, both j), ground (arith, joined j)))
            ]
    ]
