-- ===== src/Bitvector/Buckets.antt =====
-- The map of buckets and its well-formedness.
use cape_implementation.Prelude.{
  ℕ, suc, ◌+◌, ◌-◌, ◌%◌, ◌≤◌, ◌<◌, ◌≡◌, refl, arith, ◌==◌, ==_iff, ltb, if◌then◌else◌, Bool-cases,
  inl, inr, none, some, [], ◌∷◌,
}
use cape_implementation.Bits.{word_bits, modulus}
use cape_implementation.Bitvector.{Bitvector, find, assign, erase, shift}

pub find-assign :
    (k j bits : ℕ) (m : Bitvector)
    → find j (assign k bits m) ≡ (if k == j then some bits else find j m)
unfolding find assign
find-assign k j bits [] = refl
find-assign k j bits ((i, old) ∷ m) =
    ground (arith, find-assign k j bits m, ==_iff k j, ==_iff i j, ==_iff i k)

pub find-erase :
    (k j : ℕ) (m : Bitvector) → find j (erase k m) ≡ (if k == j then none else find j m)
unfolding find erase
find-erase k j [] = ground arith
find-erase k j ((i, old) ∷ m) = ground (arith, find-erase k j m, ==_iff k j, ==_iff i j, ==_iff i k)

-- The keys grow and are multiples of the width, and each bucket is a word that is not zero.
abbrev pub Buckets : ℕ → Bitvector → Type 0
Buckets low [] = Unit
Buckets low ((k, bits) ∷ m) =
    low ≤ k × k % word_bits ≡ 0 × 0 < bits × bits < modulus × Buckets (suc k) m

abbrev pub WellFormed : Bitvector → Type 0
WellFormed m = Buckets 0 m

pub Buckets-weaken : (low lower : ℕ) (m : Bitvector) → lower ≤ low → Buckets low m → Buckets lower m
Buckets-weaken low lower [] p h = tt
Buckets-weaken low lower ((k, bits) ∷ m) p h = (omega (arith, h.0), h.1, h.2, h.3, h.4)

pub assign-Buckets :
    (k bits low : ℕ) (m : Bitvector)
    → low ≤ k
    → k % word_bits ≡ 0
    → 0 < bits
    → bits < modulus
    → Buckets low m
    → Buckets low (assign k bits m)
unfolding assign
assign-Buckets k bits low [] p a b c h = (p, a, b, c, tt)
assign-Buckets k bits low ((j, old) ∷ m) p a b c h = elim (Bool-cases (ltb k j)) [
  | inl before ↦ rw before (p, a, b, c, (ground arith, h.1, h.2, h.3, h.4))
  | inr after ↦ elim (Bool-cases (j == k)) [
    | inl same ↦ rw (after, same) (p, a, b, c, Buckets-weaken (suc j) (suc k) m (ground arith) h.4)
    | inr other ↦
        rw (after, other)
          (h.0, h.1, h.2, h.3, assign-Buckets k bits (suc j) m (ground arith) a b c h.4)
  ]
]

pub erase-Buckets : (k low : ℕ) (m : Bitvector) → Buckets low m → Buckets low (erase k m)
unfolding erase
erase-Buckets k low [] h = tt
erase-Buckets k low ((j, old) ∷ m) h = elim (Bool-cases (j == k)) [
  | inl same ↦
      rw same (
        Buckets-weaken (suc j) low (erase k m) (omega (arith, h.0)) (erase-Buckets k (suc j) m h.4))
  | inr other ↦ rw other (h.0, h.1, h.2, h.3, erase-Buckets k (suc j) m h.4)
]

-- The bucket found is a word.
pub find-bucket :
    (k bits low : ℕ) (m : Bitvector)
    → Buckets low m
    → find k m ≡ some bits
    → bits < modulus × 0 < bits
unfolding find
find-bucket k bits low [] h e = absurd (ground arith)
find-bucket k bits low ((j, old) ∷ m) h e = elim (Bool-cases (j == k)) [
  | inl same ↦ ground (arith, h)
  | inr other ↦ find-bucket k bits (suc j) m h.4 (ground arith)
]

pub find_low : (k low : ℕ) (m : Bitvector) → Buckets low m → k < low → find k m ≡ none
unfolding find
find_low k low [] h p = refl
find_low k low ((j, old) ∷ m) h p =
    ground (arith, h.0, find_low k (suc j) m h.4 (omega (arith, h.0)))

-- The place of a bit.
pub shift_place :
    (i : ℕ) → shift i % word_bits ≡ 0 × i - shift i < word_bits × shift i + (i - shift i) ≡ i
unfolding shift
shift_place i = (omega arith, omega arith, omega arith)

pub shift_unique :
    (i k r : ℕ) → k % word_bits ≡ 0 → r < word_bits → k + r ≡ i → shift i ≡ k × i - shift i ≡ r
unfolding shift
shift_unique i k r p q e = (omega arith, omega arith)
