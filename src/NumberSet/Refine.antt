-- ===== src/NumberSet/Refine.antt =====
-- The sets of numbers against their specification, a list of numbers without repetition.
use cape_implementation.Prelude.{
  ℕ, ◌<◌, ◌≡◌, refl, sym, ap, ◌∙◌, arith, ◌==◌, ==_iff, ltb, Bool, not, ◌||◌, ◌&&◌, Bool-cases, inl,
  inr, List, [], ◌∷◌, elem, length, insert, elem-insert,
}
use cape_implementation.Bits.{
  word_bits, modulus, has_bit, with_bit, may_contain, get_small, set_small, empty_small, size_small,
  positions,
}
use cape_implementation.Bits.Laws.{has_bit-with_bit, with_bit_bound, modulus_positive}
use cape_implementation.Bits.Walk.{
  word_numbers, elem-word_numbers, positions-word_numbers, size_small-word_numbers,
  word_numbers-Growing, word_numbers_of_zero, word_numbers_positive, count_bits-word_numbers,
}
use cape_implementation.Bitvector.{Bitvector, get, set, size, empty, singleton_bit}
use cape_implementation.Bitvector.Buckets.{WellFormed}
use cape_implementation.Bitvector.Members.{get-set, set-get, set-WellFormed}
use cape_implementation.Bitvector.Union.{get_nil}
use cape_implementation.Bitvector.Iterator.{numbers, elem-numbers, size-numbers, numbers-Growing}
use cape_implementation.Bits.Growing.{Growing, Growing-unique, insert-Growing}
use cape_implementation.NumberSet.{
  add_big, has_big, empty_big, size_big, NumberSet, small, big, add_all_big, lift, add, has,
  is_empty_set, set_size,
}

-- The word is a word, or the vector is well formed.
abbrev pub Valid : NumberSet → Type 0
Valid (small w) = w < modulus
Valid (big m) = WellFormed m

get_small-has_bit : (i w : ℕ) → get_small i w ≡ (ltb i word_bits && has_bit w i)
unfolding get_small may_contain
get_small-has_bit i w = ground arith

add_all_big_lem :
    (xs : List ℕ) (m : Bitvector)
    → WellFormed m
    → WellFormed (add_all_big xs m) × ((j : ℕ) → get j (add_all_big xs m) ≡ (elem j xs || get j m))
unfolding add_all_big add_big
add_all_big_lem [] m h = (h, λ j. refl)
add_all_big_lem (x ∷ xs) m h =
    let rest = add_all_big_lem xs (set x m).1 (set-WellFormed x m h) in
    (rest.0, λ j. ground (arith, rest.1 j, get-set x j m h))

lift_lem :
    (n w : ℕ)
    → WellFormed (lift n w)
      × ((j : ℕ) → get j (lift n w) ≡ (n == j || (ltb j word_bits && has_bit w j)))
unfolding lift singleton_bit
lift_lem n w =
    let all = add_all_big_lem (positions w) (set n []).1 (set-WellFormed n [] tt) in
    (
      all.0,
      λ j. ground (
        arith,
        all.1 j,
        ap (λ xs. elem j xs) (positions-word_numbers w),
        elem-word_numbers w j,
        get-set n j [] tt,
        get_nil j,
      ),
    )

-- `add` puts the number in, and tells whether it is new.
pub add_lem :
    (n : ℕ) (s : NumberSet)
    → Valid s
    → (add n s).0 ≡ not (has n s)
      × Valid (add n s).1
      × ((j : ℕ) → has j (add n s).1 ≡ (n == j || has j s))
unfolding add has set_small has_big add_big may_contain
add_lem n (big m) h = (ap not (set-get n m), set-WellFormed n m h, λ j. get-set n j m h)
add_lem n (small w) h = elim (Bool-cases (ltb n word_bits)) [
  | inl fits ↦
      let below : n < word_bits = ground arith in
      rw fits (
        refl,
        with_bit_bound w n h below,
        λ j. ground (
          arith,
          get_small-has_bit j (with_bit w n),
          get_small-has_bit j w,
          has_bit-with_bit w n j h below,
        ),
      )
  | inr outside ↦
      let lifted = lift_lem n w in
      rw outside (
        ground (arith, get_small-has_bit n w),
        lifted.0,
        λ j. ground (arith, lifted.1 j, get_small-has_bit j w),
      )
]

-- The numbers of the set in order.
unfoldable pub contents : NumberSet → List ℕ
contents (small w) = word_numbers w
contents (big m) = numbers m

pub elem-contents : (s : NumberSet) (j : ℕ) → Valid s → elem j (contents s) ≡ has j s
unfolding contents has has_big
elem-contents (small w) j h = ground (arith, elem-word_numbers w j, get_small-has_bit j w)
elem-contents (big m) j h = elem-numbers m 0 j h

pub set_size-contents : (s : NumberSet) → Valid s → set_size s ≡ length (contents s)
unfolding contents set_size size_big
set_size-contents (small w) h = size_small-word_numbers w
set_size-contents (big m) h = size-numbers m 0 h

contents-Growing : (s : NumberSet) → Valid s → Growing 0 (contents s)
unfolding contents
contents-Growing (small w) h = word_numbers-Growing w
contents-Growing (big m) h = numbers-Growing m 0 h

-- After `add` the set has the ordered list with the number inserted.
contents-add : (n : ℕ) (s : NumberSet) → Valid s → contents (add n s).1 ≡ insert n (contents s)
contents-add n s h =
    let added = add_lem n s h in
    Growing-unique 0 (contents (add n s).1) (insert n (contents s))
      (contents-Growing (add n s).1 added.1)
      (insert-Growing 0 n (contents s) (omega arith) (contents-Growing s h))
      (λ j.
        elem-contents (add n s).1 j added.1
        ∙ added.2 j
        ∙ ap (λ b. n == j || b) (sym (elem-contents s j h))
        ∙ sym (elem-insert n j (contents s)))

is_empty_set-size : (s : NumberSet) → Valid s → is_empty_set s ≡ (set_size s == 0)
unfolding is_empty_set empty_small empty_big empty set_size size_big size
is_empty_set-size (small w) h = elim (Bool-cases (w == 0)) [
  | inl nothing ↦
      let none_left : size_small w ≡ 0 =
        size_small-word_numbers w
        ∙ ap (λ v. length (word_numbers v)) ((==_iff w 0).0 nothing)
        ∙ ap length word_numbers_of_zero in
      ground (arith, none_left)
  | inr something ↦
      ground (arith, size_small-word_numbers w, word_numbers_positive w h (ground arith))
]
is_empty_set-size (big []) h = refl
is_empty_set-size (big ((k, w) ∷ m)) h =
    ground (arith, count_bits-word_numbers w h.3, word_numbers_positive w h.3 h.2)

-- The calls of a client, and their answers.
pub data SetCall : Type 0 where
  add_call : ℕ → SetCall
  has_call : ℕ → SetCall
  empty_call : SetCall
  size_call : SetCall

pub data Answer : Type 0 where
  truth : Bool → Answer
  number : ℕ → Answer

unfoldable pub answer : SetCall → NumberSet → Answer × NumberSet
answer (add_call n) s = let r = add n s in (truth r.0, r.1)
answer (has_call n) s = (truth (has n s), s)
answer empty_call s = (truth (is_empty_set s), s)
answer size_call s = (number (set_size s), s)

unfoldable pub run : List SetCall → NumberSet → List Answer
run [] s = []
run (c ∷ cs) s = let r = answer c s in r.0 ∷ run cs r.1

-- The same on an ordered list without repetition.
abbrev pub specify : SetCall → List ℕ → Answer × List ℕ
specify (add_call n) xs = (truth (not (elem n xs)), insert n xs)
specify (has_call n) xs = (truth (elem n xs), xs)
specify empty_call xs = (truth (length xs == 0), xs)
specify size_call xs = (number (length xs), xs)

abbrev pub run_spec : List SetCall → List ℕ → List Answer
run_spec [] xs = []
run_spec (c ∷ cs) xs = let r = specify c xs in r.0 ∷ run_spec cs r.1

answer-specify :
    (c : SetCall) (s : NumberSet)
    → Valid s
    → (answer c s).0 ≡ (specify c (contents s)).0
      × Valid (answer c s).1
      × contents (answer c s).1 ≡ (specify c (contents s)).1
unfolding answer
answer-specify (add_call n) s h =
    let added = add_lem n s h in
    (ap truth (added.0 ∙ ap not (sym (elem-contents s n h))), added.1, contents-add n s h)
answer-specify (has_call n) s h = (ap truth (sym (elem-contents s n h)), h, refl)
answer-specify empty_call s h =
    (ap truth (is_empty_set-size s h ∙ ap (λ n. n == 0) (set_size-contents s h)), h, refl)
answer-specify size_call s h = (ap number (set_size-contents s h), h, refl)

run-run_spec : (cs : List SetCall) (s : NumberSet) → Valid s → run cs s ≡ run_spec cs (contents s)
unfolding run
run-run_spec [] s h = refl
run-run_spec (c ∷ cs) s h =
    let step = answer-specify c s h in
    rw (step.0, run-run_spec cs (answer c s).1 step.1, step.2) refl

contents_empty : contents (small 0) ≡ []
unfolding contents
contents_empty = word_numbers_of_zero

-- A client that starts from the empty small set and calls add, has, empty and size in any order gets
-- the answers of an ordered list without repetition, also when a number of 64 or more has the set lifted
-- to a sparse bit vector: add tells whether the number is new.
pub number_set_refines : (cs : List SetCall) → run cs (small 0) ≡ run_spec cs []
number_set_refines cs = run-run_spec cs (small 0) modulus_positive ∙ ap (run_spec cs) contents_empty
