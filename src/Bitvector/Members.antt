-- ===== src/Bitvector/Members.antt =====
-- What each operation of the sparse bit vector does to the set of its bits.
use cape_implementation.Prelude.{
  ℕ, ◌-◌, ◌<◌, ◌≡◌, refl, ap, arith, ◌==◌, ==_iff, if◌then◌else◌, false, not, ◌||◌, ◌&&◌,
  Bool-cases, inl, inr, Option, none, some,
}
use cape_implementation.Bits.{word_bits, modulus, one_shifted, has_bit, with_bit, without_bit}
use cape_implementation.Bits.Laws.{
  has_bit-one_shifted, has_bit-with_bit, has_bit-without_bit, has_bit_of_zero, one_shifted_bound,
  with_bit_bound, without_bit_bound, one_shifted_positive, with_bit_positive,
}
use cape_implementation.Bitvector.{
  Bitvector, find, assign, erase, shift, add_bits, get, get_in, set, set_in, unset, unset_in,
}
use cape_implementation.Bitvector.Buckets.{
  find-assign, find-erase, WellFormed, assign-Buckets, erase-Buckets, find-bucket, shift_place,
}

pub get-assign :
    (k j w : ℕ) (m : Bitvector)
    → get j (assign k w m) ≡ (if k == shift j then has_bit w (j - shift j) else get j m)
unfolding get get_in
get-assign k j w m = ground (arith, find-assign k (shift j) w m)

get-erase :
    (i j : ℕ) (m : Bitvector)
    → get j (erase (shift i) m) ≡ (if shift i == shift j then false else get j m)
unfolding get get_in
get-erase i j m = ground (arith, find-erase (shift i) (shift j) m)

pub get-bucket :
    (i j w : ℕ) (m : Bitvector)
    → find (shift i) m ≡ some w
    → shift i ≡ shift j
    → get j m ≡ has_bit w (j - shift j)
unfolding get get_in
get-bucket i j w m e s = ground (arith, e, s)

pub get_without_bucket :
    (i j : ℕ) (m : Bitvector) → find (shift i) m ≡ none → shift i ≡ shift j → get j m ≡ false
unfolding get get_in
get_without_bucket i j m e s = ground (arith, e, s)

same_place : (i j : ℕ) → shift i ≡ shift j → (i - shift i == j - shift j) ≡ (i == j)
same_place i j s = ground (arith, shift_place i, shift_place j, s)

other_place : (i j : ℕ) → (shift i == shift j) ≡ false → (i == j) ≡ false
other_place i j s =
    let same_shift : i ≡ j → shift i ≡ shift j = λ e. ap shift e in
    ground (arith, s, same_shift, ==_iff i j)

pub place_bound : (i : ℕ) → i - shift i < word_bits
place_bound i = (shift_place i).1

-- The buckets of a vector stay well formed, and the answer is the old bit.
set-cases :
    (i j : ℕ) (m : Bitvector) (o : Option ℕ)
    → find (shift i) m ≡ o
    → WellFormed m
    → get j (set_in i m o).1 ≡ (i == j || get j m) × WellFormed (set_in i m o).1
unfolding set_in add_bits
set-cases i j m none e h = (
  ground (
    arith,
    get-assign (shift i) j (one_shifted (i - shift i)) m,
    get_without_bucket i j m e,
    same_place i j,
    other_place i j,
    place_bound j,
    has_bit-one_shifted (i - shift i) (j - shift j) (place_bound i) (place_bound j),
  ),
  assign-Buckets (shift i) (one_shifted (i - shift i)) 0 m (omega arith) (shift_place i).0
      (one_shifted_positive (i - shift i) (place_bound i))
      (one_shifted_bound (i - shift i) (place_bound i)) h,
)
set-cases i j m (some w) e h =
    let word : w < modulus × 0 < w = find-bucket (shift i) w 0 m h e in
    (
      ground (
        arith,
        get-assign (shift i) j (with_bit w (i - shift i)) m,
        get-bucket i j w m e,
        same_place i j,
        other_place i j,
        has_bit-with_bit w (i - shift i) (j - shift j) word.0 (place_bound i) (place_bound j),
      ),
      assign-Buckets (shift i) (with_bit w (i - shift i)) 0 m (omega arith) (shift_place i).0
          (with_bit_positive w (i - shift i) word.0 (place_bound i))
          (with_bit_bound w (i - shift i) word.0 (place_bound i)) h,
    )

pub get-set : (i j : ℕ) (m : Bitvector) → WellFormed m → get j (set i m).1 ≡ (i == j || get j m)
unfolding set
get-set i j m h = (set-cases i j m (find (shift i) m) refl h).0

pub set-WellFormed : (i : ℕ) (m : Bitvector) → WellFormed m → WellFormed (set i m).1
unfolding set
set-WellFormed i m h = (set-cases i i m (find (shift i) m) refl h).1

set_in-get : (i : ℕ) (m : Bitvector) (o : Option ℕ) → (set_in i m o).0 ≡ get_in i o
unfolding set_in get_in
set_in-get i m none = refl
set_in-get i m (some w) = refl

pub set-get : (i : ℕ) (m : Bitvector) → (set i m).0 ≡ get i m
unfolding set get
set-get i m = set_in-get i m (find (shift i) m)

unset-cases :
    (i j : ℕ) (m : Bitvector) (o : Option ℕ)
    → find (shift i) m ≡ o
    → WellFormed m
    → get j (unset_in i m o).1 ≡ (not (i == j) && get j m) × WellFormed (unset_in i m o).1
unfolding unset_in
unset-cases i j m none e h =
    let absent : i ≡ j → get j m ≡ false = λ s. get_without_bucket i j m e (ap shift s) in
    (ground (arith, absent, ==_iff i j), h)
unset-cases i j m (some w) e h =
    let word : w < modulus × 0 < w = find-bucket (shift i) w 0 m h e in
    let bit =
      has_bit-without_bit w (i - shift i) (j - shift j) word.0 (place_bound i) (place_bound j) in
    elim (Bool-cases (without_bit w (i - shift i) == 0)) [
      | inl nothing ↦
          let gone =
            ap (λ v. has_bit v (j - shift j))
              ((==_iff (without_bit w (i - shift i)) 0).0 nothing) in
          rw nothing (
            ground (
              arith,
              get-erase i j m,
              get-bucket i j w m e,
              same_place i j,
              other_place i j,
              bit,
              gone,
              has_bit_of_zero (j - shift j) (place_bound j),
            ),
            erase-Buckets (shift i) 0 m h,
          )
      | inr something ↦ rw something (
        ground (
          arith,
          get-assign (shift i) j (without_bit w (i - shift i)) m,
          get-bucket i j w m e,
          same_place i j,
          other_place i j,
          bit,
        ),
        assign-Buckets (shift i) (without_bit w (i - shift i)) 0 m (omega arith) (shift_place i).0
            (ground arith) (without_bit_bound w (i - shift i) word.0) h,
      )
    ]

pub get-unset :
    (i j : ℕ) (m : Bitvector) → WellFormed m → get j (unset i m).1 ≡ (not (i == j) && get j m)
unfolding unset
get-unset i j m h = (unset-cases i j m (find (shift i) m) refl h).0

pub unset-WellFormed : (i : ℕ) (m : Bitvector) → WellFormed m → WellFormed (unset i m).1
unfolding unset
unset-WellFormed i m h = (unset-cases i i m (find (shift i) m) refl h).1
