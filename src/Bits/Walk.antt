-- ===== src/Bits/Walk.antt =====
-- The iteration over a word and the two ways to measure it.
use cape_implementation.Prelude.{
  ℕ, zero, suc, ◌+◌, ◌-◌, ◌/◌, ◌%◌, ◌≤◌, ◌<◌, ◌≡◌, refl, ◌∙◌, arith, ==_iff, if◌then◌else◌, Bool,
  true, ◌&&◌, ltb, leb, ltb→lt, Bool-cases, inl, inr, List, [], ◌∷◌, length, elem,
}
use cape_implementation.Bits.{
  word_bits, modulus, has_bit, find_next, next_position, first_position, positions_from, positions,
  size_from, size_small, count_loop, count_bits,
}
use cape_implementation.Bits.Digits.{digit, bit_and_one, digit_le}
use cape_implementation.Bits.Laws.{has_bit-digit, has_bit_of_zero, modulus_positive, word_apart}
use cape_implementation.Bits.Growing.{Growing, Growing-weaken, Growing-empty}

-- The set bits among the `n` positions from `i` on, in order.
abbrev pub bits_from : ℕ → ℕ → ℕ → List ℕ
bits_from zero i w = []
bits_from (suc n) i w = if has_bit w i then i ∷ bits_from n (suc i) w else bits_from n (suc i) w

pub elem-bits_from :
    (n i w j : ℕ) → elem j (bits_from n i w) ≡ (has_bit w j && (leb i j && ltb j (i + n)))
elem-bits_from zero i w j = ground arith
elem-bits_from (suc n) i w j = ground (arith, elem-bits_from n (suc i) w j, ==_iff i j)

-- The numbers of a whole word.
pub word_numbers : ℕ → List ℕ
word_numbers w = bits_from word_bits 0 w

pub elem-word_numbers : (w j : ℕ) → elem j (word_numbers w) ≡ (ltb j word_bits && has_bit w j)
unfolding word_numbers
elem-word_numbers w j = elem-bits_from word_bits 0 w j ∙ inside (has_bit w j) j
  where
    inside : (b : Bool) (i : ℕ) → (b && (leb 0 i && ltb i word_bits)) ≡ (ltb i word_bits && b)
    inside b i = ground arith

pub size_from-length : (n i w : ℕ) → size_from n i w ≡ length (bits_from n i w)
unfolding size_from
size_from-length zero i w = refl
size_from-length (suc n) i w = ground (arith, size_from-length n (suc i) w)

pub find_next_step :
    (n i w : ℕ) → find_next (suc n) i w ≡ (if has_bit w i then i else find_next n (suc i) w)
unfolding find_next
find_next_step n i w = refl

pub find_next_end : (i w : ℕ) → find_next 0 i w ≡ i
unfolding find_next
find_next_end i w = refl

pub find_next_range : (n i w : ℕ) → i ≤ find_next n i w × find_next n i w ≤ i + n
find_next_range zero i w = ground (arith, find_next_end i w)
find_next_range (suc n) i w = ground (arith, find_next_step n i w, find_next_range n (suc i) w)

next_position-find_next :
    (m i w : ℕ) → suc i + m ≡ word_bits → next_position i w ≡ find_next m (suc i) w
unfolding next_position
next_position-find_next zero i w e = ground (arith, find_next_end (suc i) w)
next_position-find_next (suc m) i w e =
    let left : word_bits - suc i ≡ suc m = omega arith in rw left (ground arith)

positions_from-bits_from :
    (n fuel i w : ℕ)
    → i + n ≡ word_bits
    → n < fuel
    → positions_from fuel (find_next n i w) w ≡ bits_from n i w
unfolding positions_from
positions_from-bits_from n zero i w e p = absurd (omega arith)
positions_from-bits_from zero (suc fuel) i w e p = ground (arith, find_next_end i w)
positions_from-bits_from (suc n) (suc fuel) i w e p = elim (Bool-cases (has_bit w i)) [
  | inl here ↦ ground (
    arith,
    find_next_step n i w,
    next_position-find_next n i w (omega arith),
    positions_from-bits_from n fuel (suc i) w (omega arith) (omega arith),
  )
  | inr later ↦
      rw (find_next_step n i w, later)
        (positions_from-bits_from n (suc fuel) (suc i) w (omega arith) (omega arith))
]

pub positions-bits_from : (w : ℕ) → positions w ≡ bits_from word_bits 0 w
unfolding positions first_position
positions-bits_from w =
    let start : (if has_bit w 0 then 0 else next_position 0 w) ≡ find_next word_bits 0 w =
      ground (arith, find_next_step 63 0 w, next_position-find_next 63 0 w refl) in
    rw start (positions_from-bits_from word_bits (suc word_bits) 0 w refl (omega arith))

-- The word without its lowest `i` digits.
abbrev drop_digits : ℕ → ℕ → ℕ
drop_digits zero w = w
drop_digits (suc i) w = drop_digits i (w / 2)

drop_digits-digit : (i w : ℕ) → digit w i ≡ drop_digits i w % 2
drop_digits-digit zero w = refl
drop_digits-digit (suc i) w = drop_digits-digit i (w / 2)

drop_digits_step : (i w : ℕ) → drop_digits (suc i) w ≡ drop_digits i w / 2
drop_digits_step zero w = refl
drop_digits_step (suc i) w = drop_digits_step i (w / 2)

count_loop_zero : (n : ℕ) → count_loop n 0 ≡ 0
unfolding count_loop
count_loop_zero zero = refl
count_loop_zero (suc n) = refl

count_loop_none : (v : ℕ) → count_loop 0 v ≡ 0
unfolding count_loop
count_loop_none v = refl

count_loop_step : (n v : ℕ) → count_loop (suc n) v ≡ v % 2 + count_loop n (v / 2)
unfolding count_loop
count_loop_step n v = ground (arith, count_loop_zero n, bit_and_one v)

count_loop-length :
    (n i w : ℕ)
    → w < modulus
    → i + n ≡ word_bits
    → count_loop n (drop_digits i w) ≡ length (bits_from n i w)
count_loop-length zero i w p e = count_loop_none (drop_digits i w)
count_loop-length (suc n) i w p e = ground (
  arith,
  count_loop_step n (drop_digits i w),
  drop_digits_step i w,
  drop_digits-digit i w,
  has_bit-digit w i p (omega arith),
  digit_le i w,
  count_loop-length n (suc i) w p (omega arith),
)

pub count_bits-length : (w : ℕ) → w < modulus → count_bits w ≡ length (bits_from word_bits 0 w)
unfolding count_bits
count_bits-length w p = count_loop-length word_bits 0 w p refl

pub positions-word_numbers : (w : ℕ) → positions w ≡ word_numbers w
unfolding word_numbers
positions-word_numbers w = positions-bits_from w

pub size_small-word_numbers : (w : ℕ) → size_small w ≡ length (word_numbers w)
unfolding word_numbers size_small
size_small-word_numbers w = size_from-length word_bits 0 w

bits_from-Growing : (n i w : ℕ) → Growing i (bits_from n i w)
bits_from-Growing zero i w = tt
bits_from-Growing (suc n) i w = elim (Bool-cases (has_bit w i)) [
  | inl here ↦ rw here (omega arith, bits_from-Growing n (suc i) w)
  | inr later ↦ rw later (
      Growing-weaken (suc i) i (bits_from n (suc i) w) (omega arith)
        (bits_from-Growing n (suc i) w))
]

pub word_numbers-Growing : (w : ℕ) → Growing 0 (word_numbers w)
unfolding word_numbers
word_numbers-Growing w = bits_from-Growing word_bits 0 w

pub word_numbers_of_zero : word_numbers 0 ≡ []
word_numbers_of_zero = Growing-empty (word_numbers 0) (λ j. elim (Bool-cases (ltb j word_bits)) [
  | inl inside ↦
      ground (arith, elem-word_numbers 0 j, has_bit_of_zero j (ltb→lt j word_bits inside))
  | inr outside ↦ ground (arith, elem-word_numbers 0 j)
])

length_positive : (xs : List ℕ) (j : ℕ) → elem j xs ≡ true → 0 < length xs
length_positive [] j p = absurd (ground arith)
length_positive (x ∷ xs) j p = omega arith

-- A word that is not zero has a number.
pub word_numbers_positive : (w : ℕ) → w < modulus → 0 < w → 0 < length (word_numbers w)
word_numbers_positive w p q = elim (word_apart w 0 p modulus_positive) [
  | inl e ↦ absurd (omega arith)
  | inr (j, r, apart) ↦
      length_positive (word_numbers w) j
        (ground (arith, elem-word_numbers w j, has_bit_of_zero j r, apart))
]

pub count_bits-word_numbers : (w : ℕ) → w < modulus → count_bits w ≡ length (word_numbers w)
unfolding word_numbers
count_bits-word_numbers w p = count_bits-length w p
