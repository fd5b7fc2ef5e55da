-- ===== src/Bitvector.antt =====
-- include/dg/ADT/Bitvector.h: a sparse vector of bits, a map from the number of the first bit of a bucket
-- to the 64 bits of the bucket. The map is a list of pairs in the order of the keys.
pub mod Buckets
pub mod Members
pub mod Union
pub mod Iterator
pub mod Refine
mod Examples
use Prim.Native.Nat.{bit_or}
use cape_implementation.Prelude.{
  ℕ, zero, suc, ◌+◌, ◌-◌, ◌%◌, Bool, true, false, not, ◌||◌, ◌&&◌, Option, none, some, List, [],
  ◌∷◌, arith, ◌==◌, ltb, if◌then◌else◌,
}
use cape_implementation.Bits.{
  word_bits, one_shifted, has_bit, with_bit, without_bit, find_next, count_bits,
}

abbrev pub Bitvector : Type 0
Bitvector = List (ℕ × ℕ)

-- `std::map`: `find`, the assignment to a key, and `erase`.
unfoldable pub find : ℕ → Bitvector → Option ℕ
find k [] = none
find k ((j, bits) ∷ m) = if j == k then some bits else find k m

unfoldable pub assign : ℕ → ℕ → Bitvector → Bitvector
assign k bits [] = (k, bits) ∷ []
assign k bits ((j, old) ∷ m) =
    if ltb k j
    then (k, bits) ∷ (j, old) ∷ m
    else if j == k
    then (k, bits) ∷ m
    else (j, old) ∷ assign k bits m

unfoldable pub erase : ℕ → Bitvector → Bitvector
erase k [] = []
erase k ((j, old) ∷ m) = if j == k then erase k m else (j, old) ∷ erase k m

-- The first bit of the bucket of a bit.
unfoldable pub shift : ℕ → ℕ
shift i = i - i % word_bits

unfoldable pub add_bits : ℕ → Bitvector → Bitvector
add_bits i m = assign (shift i) (one_shifted (i - shift i)) m

unfoldable pub reset : Bitvector → Bitvector
reset m = []

unfoldable pub empty : Bitvector → Bool
empty [] = true
empty (_ ∷ _) = false

unfoldable pub get_in : ℕ → Option ℕ → Bool
get_in i none = false
get_in i (some bits) = has_bit bits (i - shift i)

unfoldable pub get : ℕ → Bitvector → Bool
get i m = get_in i (find (shift i) m)

unfoldable pub set_in : ℕ → Bitvector → Option ℕ → Bool × Bitvector
set_in i m none = (false, add_bits i m)
set_in i m (some bits) =
    (has_bit bits (i - shift i), assign (shift i) (with_bit bits (i - shift i)) m)

unfoldable pub set : ℕ → Bitvector → Bool × Bitvector
set i m = set_in i m (find (shift i) m)

unfoldable pub singleton_bit : ℕ → Bitvector
singleton_bit i = (set i []).1

unfoldable pub or_zero : Option ℕ → ℕ
or_zero none = 0
or_zero (some bits) = bits

-- The body of the loop of the union: the bucket is made if it is not there.
unfoldable pub union_bucket : ℕ → ℕ → Bitvector → Bool × Bitvector
union_bucket k bits m =
    let old = or_zero (find k m) in (not (old == bit_or old bits), assign k (bit_or old bits) m)

unfoldable pub set_union : Bitvector → Bitvector → Bool × Bitvector
set_union [] m = (false, m)
set_union ((k, bits) ∷ rhs) m =
    let first = union_bucket k bits m in
    let rest = set_union rhs first.1 in (first.0 || rest.0, rest.1)

unfoldable pub unset_in : ℕ → Bitvector → Option ℕ → Bool × Bitvector
unset_in i m none = (false, m)
unset_in i m (some bits) =
    let cleared = without_bit bits (i - shift i) in
    (true, if cleared == 0 then erase (shift i) m else assign (shift i) cleared m)

unfoldable pub unset : ℕ → Bitvector → Bool × Bitvector
unset i m = unset_in i m (find (shift i) m)

unfoldable pub size : Bitvector → ℕ
size [] = 0
size ((k, bits) ∷ m) = count_bits bits + size m

-- The iterator: the buckets from the current one on, and the position in it.
abbrev pub Iterator : Type 0
Iterator = Bitvector × ℕ

unfoldable pub find_closest_bit : ℕ → ℕ → ℕ
find_closest_bit pos bits = find_next (word_bits - pos) pos bits

-- `begin()`
unfoldable pub begin : Bitvector → Iterator
begin [] = ([], 0)
begin ((k, bits) ∷ m) = ((k, bits) ∷ m, find_closest_bit 0 bits)

-- The second half of `operator++`: the next bucket, if the current one is at its end.
unfoldable pub next_bucket : Iterator → Iterator
next_bucket ([], pos) = ([], pos)
next_bucket (b ∷ m, pos) = if pos == word_bits then begin m else (b ∷ m, pos)

unfoldable pub next : Iterator → Iterator
next ([], pos) = ([], pos)
next ((k, bits) ∷ m, pos) =
    next_bucket
      ((k, bits) ∷ m, if suc pos == word_bits then suc pos else find_closest_bit (suc pos) bits)

-- `for (auto x : bitvector)`, on fuel.
unfoldable pub numbers_from : ℕ → Iterator → List ℕ
numbers_from zero it = []
numbers_from (suc fuel) ([], pos) = []
numbers_from (suc fuel) ((k, bits) ∷ m, pos) =
    (k + pos) ∷ numbers_from fuel (next ((k, bits) ∷ m, pos))
