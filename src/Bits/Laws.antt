-- ===== src/Bits/Laws.antt =====
-- The tests and updates of single bits read on the digits of a word, and the set that a word stands for.
use Prim.Native.Nat.{bit_and, bit_or}
use native.Mathlib.Nat.{mod-eq_of_lt}
use cape_implementation.Prelude.{
  ℕ, zero, suc, ◌-◌, ◌^◌, ◌<◌, ◌≡◌, ap, ◌∙◌, arith, ◌==◌, ==_iff, if◌then◌else◌, true, false, not,
  ◌||◌, ◌&&◌, Bool-cases, inl, inr, ◌⊎◌, ◌≢◌,
}
use cape_implementation.Bits.{
  word_bits, modulus, one_shifted, complement_word, has_bit, with_bit, without_bit,
}
use cape_implementation.Bits.Digits.{
  digit, digit-bit_or, digit-bit_and, digit_le, digit_of_zero, digit-power, digit-complement,
  bit_or_bound, bit_and_bound, all_zero, digits_apart,
}

power_mono : (k n : ℕ) → k < n → 2 ^ k < 2 ^ n
power_mono k zero p = absurd (omega arith)
power_mono zero (suc n) p = omega (arith, power_positive n)
  where
    power_positive : (m : ℕ) → 0 < 2 ^ m
    power_positive zero = omega arith
    power_positive (suc m) = omega (arith, power_positive m)
power_mono (suc k) (suc n) p = omega (arith, power_mono k n (omega arith))

one_shifted-power : (k : ℕ) → k < word_bits → one_shifted k ≡ 2 ^ k
unfolding one_shifted modulus
one_shifted-power k p = mod-eq_of_lt (power_mono k word_bits p)

pub one_shifted_bound : (k : ℕ) → k < word_bits → one_shifted k < modulus
unfolding modulus
one_shifted_bound k p = rw (one_shifted-power k p) (power_mono k word_bits p)

digit-one_shifted : (k j : ℕ) → k < word_bits → digit (one_shifted k) j ≡ (if k == j then 1 else 0)
digit-one_shifted k j p = rw (one_shifted-power k p) (digit-power k j)

word_and_bound : (w v : ℕ) → w < modulus → bit_and w v < modulus
unfolding modulus
word_and_bound w v p = bit_and_bound word_bits w v p

pub word_or_bound : (w v : ℕ) → w < modulus → v < modulus → bit_or w v < modulus
unfolding modulus
word_or_bound w v p q = bit_or_bound word_bits w v p q

word_zero : (w : ℕ) → w < modulus → ((k : ℕ) → k < word_bits → digit w k ≡ 0) → w ≡ 0
unfolding modulus
word_zero w p h = all_zero word_bits w p h

-- A bit is set if its digit is one.
pub has_bit-digit : (w k : ℕ) → w < modulus → k < word_bits → has_bit w k ≡ (digit w k == 1)
unfolding has_bit
has_bit-digit w k q p = elim (Bool-cases (digit w k == 1)) [
  | inl one ↦
      let unset : bit_and w (one_shifted k) ≡ 0 → digit 0 k ≡ 1 = λ e. ground (
        arith,
        ap (λ v. digit v k) e,
        digit-bit_and k w (one_shifted k),
        digit-one_shifted k k p,
      ) in
      ground (arith, unset, digit_of_zero k)
  | inr none_set ↦
      let nothing : bit_and w (one_shifted k) ≡ 0 =
        word_zero (bit_and w (one_shifted k)) (word_and_bound w (one_shifted k) q) (λ j r. ground (
          arith,
          digit-bit_and j w (one_shifted k),
          digit-one_shifted k j p,
          digit_le j w,
          digit_le k w,
          ==_iff k j,
        )) in
      ground (arith, nothing)
]

digit-complement_word :
    (j w : ℕ) → w < modulus → j < word_bits → digit (complement_word w) j ≡ 1 - digit w j
unfolding complement_word modulus
digit-complement_word j w p q = digit-complement word_bits j w p q

pub with_bit_bound : (w i : ℕ) → w < modulus → i < word_bits → with_bit w i < modulus
unfolding with_bit
with_bit_bound w i p q = word_or_bound w (one_shifted i) p (one_shifted_bound i q)

pub without_bit_bound : (w i : ℕ) → w < modulus → without_bit w i < modulus
unfolding without_bit
without_bit_bound w i p = word_and_bound w (complement_word (one_shifted i)) p

pub has_bit-bit_or :
    (a b j : ℕ)
    → a < modulus
    → b < modulus
    → j < word_bits
    → has_bit (bit_or a b) j ≡ (has_bit a j || has_bit b j)
has_bit-bit_or a b j p q r = ground (
  arith,
  digit-bit_or j a b,
  digit_le j a,
  digit_le j b,
  has_bit-digit a j p r,
  has_bit-digit b j q r,
  has_bit-digit (bit_or a b) j (word_or_bound a b p q) r,
)

pub has_bit-one_shifted :
    (i j : ℕ) → i < word_bits → j < word_bits → has_bit (one_shifted i) j ≡ (i == j)
has_bit-one_shifted i j p q =
    ground
      (arith, has_bit-digit (one_shifted i) j (one_shifted_bound i p) q, digit-one_shifted i j p)

pub has_bit-with_bit :
    (w i j : ℕ)
    → w < modulus
    → i < word_bits
    → j < word_bits
    → has_bit (with_bit w i) j ≡ (i == j || has_bit w j)
unfolding with_bit
has_bit-with_bit w i j p q r = ground (
  arith,
  has_bit-bit_or w (one_shifted i) j p (one_shifted_bound i q) r,
  has_bit-one_shifted i j q r,
)

pub has_bit-without_bit :
    (w i j : ℕ)
    → w < modulus
    → i < word_bits
    → j < word_bits
    → has_bit (without_bit w i) j ≡ (not (i == j) && has_bit w j)
unfolding without_bit
has_bit-without_bit w i j p q r = ground (
  arith,
  digit-bit_and j w (complement_word (one_shifted i)),
  digit-complement_word j (one_shifted i) (one_shifted_bound i q) r,
  digit-one_shifted i j q,
  digit_le j w,
  has_bit-digit w j p r,
  has_bit-digit (bit_and w (complement_word (one_shifted i))) j
      (word_and_bound w (complement_word (one_shifted i)) p) r,
)

pub modulus_positive : 0 < modulus
modulus_positive = omega (arith, one_shifted_bound 0 (omega arith))

pub has_bit_of_zero : (j : ℕ) → j < word_bits → has_bit 0 j ≡ false
has_bit_of_zero j r = ground (arith, has_bit-digit 0 j modulus_positive r, digit_of_zero j)

-- A word without bits is zero.
pub no_bits : (w : ℕ) → w < modulus → ((j : ℕ) → j < word_bits → has_bit w j ≡ false) → w ≡ 0
no_bits w p h = word_zero w p (λ j q. ground (arith, h j q, has_bit-digit w j p q, digit_le j w))

pub some_bit : (w j : ℕ) → j < word_bits → has_bit w j ≡ true → 0 < w
some_bit zero j p h = absurd (ground (arith, has_bit_of_zero j p))
some_bit (suc w) j p h = omega arith

pub bit_or_positive : (a b : ℕ) → a < modulus → b < modulus → 0 < b → 0 < bit_or a b
bit_or_positive a b p q r = elim (Bool-cases (bit_or a b == 0)) [
  | inl nothing ↦
      let at_zero : (j : ℕ) → j < word_bits → has_bit (bit_or a b) j ≡ false =
        λ j s. ap (λ w. has_bit w j) ((==_iff (bit_or a b) 0).0 nothing) ∙ has_bit_of_zero j s in
      let none_set : b ≡ 0 =
        no_bits b q (λ j s. ground (arith, at_zero j s, has_bit-bit_or a b j p q s)) in
      absurd (omega arith)
  | inr something ↦ ground arith
]

-- Two words are equal, or a bit tells them apart.
pub word_apart :
    (a b : ℕ)
    → a < modulus
    → b < modulus
    → (a ≡ b) ⊎ ((j : ℕ) × j < word_bits × has_bit a j ≢ has_bit b j)
unfolding modulus
word_apart a b p q = elim (digits_apart word_bits a b p q) [
  | inl same ↦ inl same
  | inr (j, r, apart) ↦ inr (
    j,
    r,
    λ e. apart (
        ground
          (arith, e, has_bit-digit a j p r, has_bit-digit b j q r, digit_le j a, digit_le j b)),
  )
]

pub one_shifted_positive : (i : ℕ) → i < word_bits → 0 < one_shifted i
one_shifted_positive i p =
    some_bit (one_shifted i) i p (ground (arith, has_bit-one_shifted i i p p))

pub with_bit_positive : (w i : ℕ) → w < modulus → i < word_bits → 0 < with_bit w i
with_bit_positive w i p q =
    some_bit (with_bit w i) i q (ground (arith, has_bit-with_bit w i i p q q))
