-- ===== src/Bitvector/Iterator.antt =====
-- What the iteration over a sparse bit vector yields, and the size it has.
use cape_implementation.Prelude.{
  ℕ, zero, suc, ◌+◌, ◌-◌, ◌*◌, ◌%◌, ◌≤◌, ◌<◌, ◌≡◌, refl, sym, ap, ◌∙◌, arith, ◌==◌, ==_iff, leb,
  if◌then◌else◌, Bool, false, ◌&&◌, Bool-cases, ◌⊎◌, inl, inr, List, [], ◌∷◌, ◌++◌, length,
  length-append, elem, elem-append,
}
use cape_implementation.Bits.Growing.{Growing, Growing-weaken}
use cape_implementation.Bits.{word_bits, has_bit, find_next}
use cape_implementation.Bits.Laws.{no_bits}
use cape_implementation.Bits.Walk.{bits_from, find_next_step, find_next_end, count_bits-length}
use cape_implementation.Bitvector.{
  Bitvector, shift, get, size, find_closest_bit, begin, next_bucket, next, numbers_from,
}
use cape_implementation.Bitvector.Buckets.{Buckets, WellFormed, shift_place, shift_unique}
use cape_implementation.Bitvector.Union.{get-cons, get_nil, in_bucket}

-- The numbers of the set bits of a bucket among the `n` positions from `i` on, and those of all buckets.
abbrev pub bucket_numbers : ℕ → ℕ → ℕ → ℕ → List ℕ
bucket_numbers zero i k w = []
bucket_numbers (suc n) i k w =
    if has_bit w i then (k + i) ∷ bucket_numbers n (suc i) k w else bucket_numbers n (suc i) k w

abbrev pub numbers : Bitvector → List ℕ
numbers [] = []
numbers ((k, w) ∷ m) = bucket_numbers word_bits 0 k w ++ numbers m

begin_end : begin [] ≡ ([], 0)
unfolding begin
begin_end = refl

find_next_found :
    (n i w : ℕ)
    → (find_next n i w ≡ i + n × ((j : ℕ) → i ≤ j → j < i + n → has_bit w j ≡ false))
      ⊎ (find_next n i w < i + n)
find_next_found zero i w = inl (ground (arith, find_next_end i w), λ j p q. absurd (omega arith))
find_next_found (suc n) i w = elim (Bool-cases (has_bit w i)) [
  | inl here ↦ inr (ground (arith, find_next_step n i w))
  | inr later ↦ elim (find_next_found n (suc i) w) [
    | inr found ↦ inr (ground (arith, find_next_step n i w))
    | inl (e, none_set) ↦ inl (
      ground (arith, find_next_step n i w),
      λ j p q. elim (Bool-cases (i == j)) [
        | inl same ↦ rw (sym ((==_iff i j).0 same)) later
        | inr other ↦ none_set j (ground arith) (omega arith)
      ],
    )
  ]
]

-- The first bit of a bucket that is not empty is in it.
begin-bucket :
    (k w low : ℕ) (m : Bitvector)
    → Buckets low ((k, w) ∷ m)
    → begin ((k, w) ∷ m) ≡ next_bucket ((k, w) ∷ m, find_next word_bits 0 w)
unfolding begin next_bucket find_closest_bit
begin-bucket k w low m h = elim (find_next_found word_bits 0 w) [
  | inl (e, none_set) ↦
      let nothing : w ≡ 0 = no_bits w h.3 (λ j p. none_set j (omega arith) p) in
      absurd (omega (arith, h.2))
  | inr found ↦ ground arith
]

next-next_bucket :
    (n i k w : ℕ) (m : Bitvector)
    → suc i + n ≡ word_bits
    → next ((k, w) ∷ m, i) ≡ next_bucket ((k, w) ∷ m, find_next n (suc i) w)
unfolding next find_closest_bit
next-next_bucket zero i k w m e = ground (arith, find_next_end (suc i) w)
next-next_bucket (suc n) i k w m e =
    let left : word_bits - suc i ≡ suc n = omega arith in rw left (ground arith)

next_bucket_stay :
    (k w i : ℕ) (m : Bitvector) → i < word_bits → next_bucket ((k, w) ∷ m, i) ≡ ((k, w) ∷ m, i)
unfolding next_bucket
next_bucket_stay k w i m p = ground arith

next_bucket_move :
    (k w i : ℕ) (m : Bitvector) → i ≡ word_bits → next_bucket ((k, w) ∷ m, i) ≡ begin m
unfolding next_bucket
next_bucket_move k w i m e = ground arith

numbers_from_step :
    (fuel k w i : ℕ) (m : Bitvector)
    → numbers_from (suc fuel) ((k, w) ∷ m, i) ≡ (k + i) ∷ numbers_from fuel (next ((k, w) ∷ m, i))
unfolding numbers_from
numbers_from_step fuel k w i m = refl

numbers_from-bucket :
    (n i k w fuel : ℕ) (m : Bitvector)
    → ((gas : ℕ) → word_bits * length m < gas → numbers_from gas (begin m) ≡ numbers m)
    → i + n ≡ word_bits
    → word_bits * length m + n < fuel
    → numbers_from fuel (next_bucket ((k, w) ∷ m, find_next n i w))
      ≡ bucket_numbers n i k w ++ numbers m
numbers_from-bucket n i k w zero m rest e p = absurd (omega arith)
numbers_from-bucket zero i k w (suc fuel) m rest e p =
    rw (find_next_end i w, next_bucket_move k w i m (omega arith)) (rest (suc fuel) (omega arith))
numbers_from-bucket (suc n) i k w (suc fuel) m rest e p = elim (Bool-cases (has_bit w i)) [
  | inl here ↦
      rw
        (
          find_next_step n i w,
          here,
          next_bucket_stay k w i m (omega arith),
          numbers_from_step fuel k w i m,
          next-next_bucket n i k w m (omega arith),
          numbers_from-bucket n (suc i) k w fuel m rest (omega arith) (omega arith),
        )
        refl
  | inr later ↦
      rw (find_next_step n i w, later)
        (numbers_from-bucket n (suc i) k w (suc fuel) m rest (omega arith) (omega arith))
]

numbers_from_none : (fuel : ℕ) → numbers_from fuel ([], 0) ≡ []
unfolding numbers_from
numbers_from_none zero = refl
numbers_from_none (suc fuel) = refl

-- The loop yields the numbers of all buckets.
pub numbers_from-numbers :
    (m : Bitvector) (low fuel : ℕ)
    → Buckets low m
    → word_bits * length m < fuel
    → numbers_from fuel (begin m) ≡ numbers m
numbers_from-numbers [] low fuel h p = rw begin_end (numbers_from_none fuel)
numbers_from-numbers ((k, w) ∷ m) low fuel h p = rw (begin-bucket k w low m h) (
    numbers_from-bucket word_bits 0 k w fuel m (λ gas q. numbers_from-numbers m (suc k) gas h.4 q)
      refl (omega arith))

elem-bucket_numbers :
    (n i k w j : ℕ)
    → k % word_bits ≡ 0
    → i + n ≡ word_bits
    → elem j (bucket_numbers n i k w) ≡ (in_bucket k w j && leb i (j - shift j))
elem-bucket_numbers zero i k w j a e = ground (arith, shift_place j)
elem-bucket_numbers (suc n) i k w j a e =
    let here : shift (k + i) ≡ k × k + i - shift (k + i) ≡ i =
      shift_unique (k + i) k i a (omega arith) refl in
    let meets : k + i ≡ j → shift j ≡ k × j - shift j ≡ i = λ s. rw (sym s) here in
    let bit : i ≡ j - shift j → has_bit w i ≡ has_bit w (j - shift j) =
      λ s. ap (λ v. has_bit w v) s in
    ground (
      arith,
      shift_place j,
      meets,
      bit,
      ==_iff (k + i) j,
      ==_iff k (shift j),
      elem-bucket_numbers n (suc i) k w j a (omega arith),
    )

from_zero : (b : Bool) (i : ℕ) → (b && leb 0 i) ≡ b
from_zero b i = ground arith

elem-whole_bucket :
    (k w j : ℕ) → k % word_bits ≡ 0 → elem j (bucket_numbers word_bits 0 k w) ≡ in_bucket k w j
elem-whole_bucket k w j a =
    elem-bucket_numbers word_bits 0 k w j a refl ∙ from_zero (in_bucket k w j) (j - shift j)

-- They are the bits that `get` finds.
pub elem-numbers : (m : Bitvector) (low j : ℕ) → Buckets low m → elem j (numbers m) ≡ get j m
elem-numbers [] low j h = ground (arith, get_nil j)
elem-numbers ((k, w) ∷ m) low j h =
    rw
      (
        elem-append j (bucket_numbers word_bits 0 k w) (numbers m),
        elem-whole_bucket k w j h.1,
        get-cons j k w low m h,
        elem-numbers m (suc k) j h.4,
      )
      refl

bucket_numbers-Growing :
    (n i k w : ℕ) (rest : List ℕ)
    → Growing (k + (i + n)) rest
    → Growing (k + i) (bucket_numbers n i k w ++ rest)
bucket_numbers-Growing zero i k w rest h = Growing-weaken (k + (i + 0)) (k + i) rest (omega arith) h
bucket_numbers-Growing (suc n) i k w rest h =
    let tail : Growing (suc (k + i)) (bucket_numbers n (suc i) k w ++ rest) =
      Growing-weaken (k + suc i) (suc (k + i)) (bucket_numbers n (suc i) k w ++ rest) (omega arith)
        (bucket_numbers-Growing n (suc i) k w rest
          (Growing-weaken (k + (i + suc n)) (k + (suc i + n)) rest (omega arith) h)) in
    elim (Bool-cases (has_bit w i)) [
      | inl here ↦ rw here (omega arith, tail)
      | inr later ↦ rw later (
          Growing-weaken (suc (k + i)) (k + i) (bucket_numbers n (suc i) k w ++ rest) (omega arith)
            tail)
    ]

-- A bucket ends where the next one may begin.
Buckets-next :
    (k : ℕ) (m : Bitvector)
    → k % word_bits ≡ 0
    → Buckets (suc k) m
    → Buckets (k + (0 + word_bits)) m
Buckets-next k [] a h = tt
Buckets-next k ((j, w) ∷ m) a h = (omega (arith, h.0, h.1), h.1, h.2, h.3, h.4)

pub numbers-Growing : (m : Bitvector) (low : ℕ) → Buckets low m → Growing low (numbers m)
numbers-Growing [] low h = tt
numbers-Growing ((k, w) ∷ m) low h =
    Growing-weaken (k + 0) low (bucket_numbers word_bits 0 k w ++ numbers m) (omega (arith, h.0)) (
      bucket_numbers-Growing word_bits 0 k w (numbers m)
        (numbers-Growing m (k + (0 + word_bits)) (Buckets-next k m h.1 h.4)))

length-bucket_numbers : (n i k w : ℕ) → length (bucket_numbers n i k w) ≡ length (bits_from n i w)
length-bucket_numbers zero i k w = refl
length-bucket_numbers (suc n) i k w = ground (arith, length-bucket_numbers n (suc i) k w)

-- `size` counts what the loop yields.
pub size-numbers : (m : Bitvector) (low : ℕ) → Buckets low m → size m ≡ length (numbers m)
unfolding size
size-numbers [] low h = refl
size-numbers ((k, w) ∷ m) low h = omega (
  arith,
  count_bits-length w h.3,
  length-bucket_numbers word_bits 0 k w,
  length-append (bucket_numbers word_bits 0 k w) (numbers m),
  size-numbers m (suc k) h.4,
)

-- Over a well-formed sparse bit vector, a loop from `begin()` with more fuel than 64 times the number
-- of buckets yields numbers that grow, exactly those that `get` finds, and as many as `size` says.
pub iteration_correct :
    (m : Bitvector) (fuel : ℕ)
    → WellFormed m
    → word_bits * length m < fuel
    → Growing 0 (numbers_from fuel (begin m))
      × ((j : ℕ) → elem j (numbers_from fuel (begin m)) ≡ get j m)
      × length (numbers_from fuel (begin m)) ≡ size m
iteration_correct m fuel h p =
    rw (numbers_from-numbers m 0 fuel h p)
      (numbers-Growing m 0 h, λ j. elem-numbers m 0 j h, omega (arith, size-numbers m 0 h))
