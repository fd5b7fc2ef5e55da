-- ===== src/Bits/Digits.antt =====
-- The binary digits of a number, and those of the native bit operations.
use Prim.Native.Nat.{digits, bitwise, bit_and, bit_or, bit_and-bitwise, bit_or-bitwise}
use native.Mathlib.Nat.{le_refl}
use cape_implementation.Prelude.{
  ℕ, zero, suc, ◌+◌, ◌-◌, ◌*◌, ◌/◌, ◌%◌, ◌^◌, ◌≤◌, ◌<◌, min, max, ◌≡◌, refl, arith, ◌==◌,
  if◌then◌else◌, ◌⊎◌, inl, inr, ◌≢◌, Bool-cases,
}

-- The digit of `w` at a position.
abbrev pub digit : ℕ → ℕ → ℕ
digit w zero = w % 2
digit w (suc k) = digit (w / 2) k

module _ (left : ℕ → ℕ) (op : ℕ → ℕ → ℕ) where
  -- The fuel of the native recursion does not matter once it covers the number.
  enough_digits :
      (fuel gas a b : ℕ) → a ≤ fuel → a ≤ gas → digits left op fuel a b ≡ digits left op gas a b
  enough_digits zero zero a b p q = refl
  enough_digits zero (suc gas) zero b p q = refl
  enough_digits (suc fuel) zero zero b p q = refl
  enough_digits (suc fuel) (suc gas) zero b p q = refl
  enough_digits zero (suc gas) (suc a) b p q = absurd (omega arith)
  enough_digits (suc fuel) zero (suc a) b p q = absurd (omega arith)
  enough_digits (suc fuel) (suc gas) (suc a) b p q =
      rw (enough_digits fuel gas (suc a / 2) (b / 2) (omega arith) (omega arith))

  halves :
      (a b : ℕ)
      → bitwise left op (suc a) b ≡ bitwise left op (suc a / 2) (b / 2) * 2 + op (suc a % 2) (b % 2)
  halves a b =
      omega (arith, enough_digits a (suc a / 2) (suc a / 2) (b / 2) (omega arith) (le_refl _))

bit_or-halves : (a b : ℕ) → bit_or a b ≡ bit_or (a / 2) (b / 2) * 2 + max (a % 2) (b % 2)
bit_or-halves zero b = simp bit_or-bitwise (omega arith)
bit_or-halves (suc a) b = simp bit_or-bitwise (halves (λ x. x) max a b)

bit_and-halves : (a b : ℕ) → bit_and a b ≡ bit_and (a / 2) (b / 2) * 2 + min (a % 2) (b % 2)
bit_and-halves zero b = simp bit_and-bitwise (omega arith)
bit_and-halves (suc a) b = simp bit_and-bitwise (halves (λ x. 0) min a b)

bit_and_nothing : (n a : ℕ) → a ≤ n → bit_and a 0 ≡ 0
bit_and_nothing n zero p = simp bit_and-bitwise (omega arith)
bit_and_nothing zero (suc a) p = absurd (omega arith)
bit_and_nothing (suc n) (suc a) p =
    omega (arith, bit_and-halves (suc a) 0, bit_and_nothing n (suc a / 2) (omega arith))

pub bit_and_one : (a : ℕ) → bit_and a 1 ≡ a % 2
bit_and_one a = omega (arith, bit_and-halves a 1, bit_and_nothing (a / 2) (a / 2) (le_refl _))

pub digit-bit_or : (k a b : ℕ) → digit (bit_or a b) k ≡ max (digit a k) (digit b k)
digit-bit_or zero a b = omega (arith, bit_or-halves a b)
digit-bit_or (suc k) a b =
    let half : bit_or a b / 2 ≡ bit_or (a / 2) (b / 2) = omega (arith, bit_or-halves a b) in
    rw half (digit-bit_or k (a / 2) (b / 2))

pub digit-bit_and : (k a b : ℕ) → digit (bit_and a b) k ≡ min (digit a k) (digit b k)
digit-bit_and zero a b = omega (arith, bit_and-halves a b)
digit-bit_and (suc k) a b =
    let half : bit_and a b / 2 ≡ bit_and (a / 2) (b / 2) = omega (arith, bit_and-halves a b) in
    rw half (digit-bit_and k (a / 2) (b / 2))

pub digit_le : (k a : ℕ) → digit a k ≤ 1
digit_le zero a = omega arith
digit_le (suc k) a = digit_le k (a / 2)

pub digit_of_zero : (k : ℕ) → digit 0 k ≡ 0
digit_of_zero zero = refl
digit_of_zero (suc k) = digit_of_zero k

pub power_step : (k : ℕ) → 2 ^ suc k ≡ 2 * 2 ^ k
power_step k = omega arith

pub digit-power : (k j : ℕ) → digit (2 ^ k) j ≡ (if k == j then 1 else 0)
digit-power zero zero = refl
digit-power zero (suc j) = ground (arith, digit_of_zero j)
digit-power (suc k) zero = ground (arith, power_step k)
digit-power (suc k) (suc j) =
    let half : 2 ^ suc k / 2 ≡ 2 ^ k = omega (arith, power_step k) in
    rw half (ground (arith, digit-power k j))

-- The digits of `~w`, in a word of `n` digits.
pub digit-complement : (n j w : ℕ) → w < 2 ^ n → j < n → digit (2 ^ n - 1 - w) j ≡ 1 - digit w j
digit-complement zero j w p q = absurd (omega arith)
digit-complement (suc n) zero w p q = omega (arith, power_step n)
digit-complement (suc n) (suc j) w p q =
    let half : (2 ^ suc n - 1 - w) / 2 ≡ 2 ^ n - 1 - w / 2 = omega (arith, power_step n) in
    rw half (digit-complement n j (w / 2) (omega (arith, power_step n)) (omega arith))

pub bit_or_bound : (n a b : ℕ) → a < 2 ^ n → b < 2 ^ n → bit_or a b < 2 ^ n
bit_or_bound zero zero b p q = simp bit_or-bitwise (omega arith)
bit_or_bound zero (suc a) b p q = absurd (omega arith)
bit_or_bound (suc n) a b p q = omega (
  arith,
  power_step n,
  bit_or-halves a b,
  bit_or_bound n (a / 2) (b / 2) (omega (arith, power_step n)) (omega (arith, power_step n)),
)

pub bit_and_bound : (n a b : ℕ) → a < 2 ^ n → bit_and a b < 2 ^ n
bit_and_bound zero zero b p = simp bit_and-bitwise (omega arith)
bit_and_bound zero (suc a) b p = absurd (omega arith)
bit_and_bound (suc n) a b p = omega (
  arith,
  power_step n,
  bit_and-halves a b,
  bit_and_bound n (a / 2) (b / 2) (omega (arith, power_step n)),
)

-- A number without digits is zero.
pub all_zero : (n w : ℕ) → w < 2 ^ n → ((k : ℕ) → k < n → digit w k ≡ 0) → w ≡ 0
all_zero zero w p h = omega arith
all_zero (suc n) w p h = omega (
  arith,
  h 0 (omega arith),
  all_zero n (w / 2) (omega (arith, power_step n)) (λ k q. h (suc k) (omega arith)),
)

pub digits_apart :
    (n a b : ℕ) → a < 2 ^ n → b < 2 ^ n → (a ≡ b) ⊎ ((k : ℕ) × k < n × digit a k ≢ digit b k)
digits_apart zero a b p q = inl (omega arith)
digits_apart (suc n) a b p q =
    elim (digits_apart n (a / 2) (b / 2) (omega (arith, power_step n))
      (omega (arith, power_step n))) [
        | inr (k, r, apart) ↦ inr (suc k, omega arith, apart)
        | inl halves_same ↦ elim (Bool-cases (a % 2 == b % 2)) [
          | inl same ↦ inl (ground arith)
          | inr other ↦ inr (0, omega arith, λ e. ground arith)
        ]
      ]
