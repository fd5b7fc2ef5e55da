-- ===== src/NumberSet.antt =====
-- include/dg/ADT/NumberSet.h: sets of numbers without removal. The small set is one word, and is lifted to
-- a sparse bit vector by the first number that does not fit.
pub mod Refine
mod Examples
use cape_implementation.Prelude.{ℕ, Bool, true, false, not, List, [], ◌∷◌, if◌then◌else◌}
use cape_implementation.Bits.{may_contain, get_small, set_small, empty_small, size_small, positions}
use cape_implementation.Bitvector.{Bitvector, get, set, size, empty, singleton_bit}

-- `BitvectorNumberSet`: `add`, `has`, `empty`, `size`.
unfoldable pub add_big : ℕ → Bitvector → Bool × Bitvector
add_big n m = let r = set n m in (not r.0, r.1)

unfoldable pub has_big : ℕ → Bitvector → Bool
has_big n m = get n m

unfoldable pub empty_big : Bitvector → Bool
empty_big m = empty m

unfoldable pub size_big : Bitvector → ℕ
size_big m = size m

-- The tagged union of `SmallNumberSet`.
pub data NumberSet : Type 0 where
  small : ℕ → NumberSet
  big : Bitvector → NumberSet

unfoldable pub add_all_big : List ℕ → Bitvector → Bitvector
add_all_big [] m = m
add_all_big (x ∷ xs) m = add_all_big xs (add_big x m).1

-- `_lift`: the new number first, then those of the word.
unfoldable pub lift : ℕ → ℕ → Bitvector
lift n w = add_all_big (positions w) (singleton_bit n)

unfoldable pub add : ℕ → NumberSet → Bool × NumberSet
add n (small w) =
    if may_contain n
    then (let r = set_small n w in (not r.0, small r.1))
    else (true, big (lift n w))
add n (big m) = let r = add_big n m in (r.0, big r.1)

unfoldable pub has : ℕ → NumberSet → Bool
has n (small w) = get_small n w
has n (big m) = has_big n m

unfoldable pub is_empty_set : NumberSet → Bool
is_empty_set (small w) = empty_small w
is_empty_set (big m) = empty_big m

unfoldable pub set_size : NumberSet → ℕ
set_size (small w) = size_small w
set_size (big m) = size_big m
