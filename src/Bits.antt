-- ===== src/Bits.antt =====
-- include/dg/ADT/Bits.h: a word of 64 bits as a set of small numbers, and the operations on single bits
-- that ADT/Bitvector.h writes in the same way. A word is a natural number.
mod Digits
pub mod Growing
pub mod Laws
pub mod Walk
use Prim.Native.Nat.{bit_and, bit_or}
use cape_implementation.Prelude.{
  ℕ, zero, suc, ◌+◌, ◌-◌, ◌/◌, ◌%◌, ◌^◌, Bool, true, false, not, List, [], ◌∷◌, arith, ◌==◌, ltb,
  if◌then◌else◌,
}

abbrev pub word_bits : ℕ
word_bits = 64

unfoldable pub modulus : ℕ
modulus = 2 ^ word_bits

-- `1UL << k`
unfoldable pub one_shifted : ℕ → ℕ
one_shifted k = 2 ^ k % modulus

-- `~w`
unfoldable pub complement_word : ℕ → ℕ
complement_word w = modulus - 1 - w

-- `w & (1UL << k)` as a test
unfoldable pub has_bit : ℕ → ℕ → Bool
has_bit w k = not (bit_and w (one_shifted k) == 0)

-- `w |= 1UL << k`
unfoldable pub with_bit : ℕ → ℕ → ℕ
with_bit w k = bit_or w (one_shifted k)

-- `w &= ~(1UL << k)`
unfoldable pub without_bit : ℕ → ℕ → ℕ
without_bit w k = bit_and w (complement_word (one_shifted k))

unfoldable pub may_contain : ℕ → Bool
may_contain i = ltb i word_bits

unfoldable pub get_small : ℕ → ℕ → Bool
get_small i w = if may_contain i then has_bit w i else false

-- The previous value of the bit, and the word with the bit set.
unfoldable pub set_small : ℕ → ℕ → Bool × ℕ
set_small i w = (get_small i w, with_bit w i)

unfoldable pub empty_small : ℕ → Bool
empty_small w = w == 0

-- The loop of `size` over the last `n` positions, from `i` on.
unfoldable pub size_from : ℕ → ℕ → ℕ → ℕ
size_from zero i w = 0
size_from (suc n) i w = let rest = size_from n (suc i) w in if has_bit w i then suc rest else rest

unfoldable pub size_small : ℕ → ℕ
size_small w = size_from word_bits 0 w

-- `_findNext`, the loop over the last `n` positions: the first set bit from `pos` on, or the end.
unfoldable pub find_next : ℕ → ℕ → ℕ → ℕ
find_next zero pos w = pos
find_next (suc n) pos w = let rest = find_next n (suc pos) w in if has_bit w pos then pos else rest

-- `operator++` of the iterator
unfoldable pub next_position : ℕ → ℕ → ℕ
next_position pos w =
    if suc pos == word_bits then suc pos else find_next (word_bits - suc pos) (suc pos) w

-- `begin()`
unfoldable pub first_position : ℕ → ℕ
first_position w = if has_bit w 0 then 0 else next_position 0 w

-- `for (auto x : bits)`, on fuel: the positions from `pos` to the end.
unfoldable pub positions_from : ℕ → ℕ → ℕ → List ℕ
positions_from zero pos w = []
positions_from (suc n) pos w =
    let rest = positions_from n (next_position pos w) w in
    if pos == word_bits then [] else pos ∷ rest

unfoldable pub positions : ℕ → List ℕ
positions w = positions_from (suc word_bits) (first_position w) w

-- `_countBits`, on fuel: the loop shifts the word to the right.
unfoldable pub count_loop : ℕ → ℕ → ℕ
count_loop zero bits = 0
count_loop (suc fuel) bits =
    let rest = count_loop fuel (bits / 2) in
    if bits == 0 then 0 else if bit_and bits 1 == 0 then rest else suc rest

unfoldable pub count_bits : ℕ → ℕ
count_bits bits = count_loop word_bits bits
