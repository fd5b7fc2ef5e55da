-- ===== src/Bitvector/Refine.antt =====
-- The sparse bit vector against its specification, a set given by a Boolean function on the numbers.
use cape_implementation.Prelude.{
  ℕ, ◌≡◌, refl, sym, ap, ◌∙◌, arith, ◌==◌, ==_iff, Bool, true, false, not, ◌||◌, ◌&&◌, inl, inr,
  Option, none, some, List, [], ◌∷◌, elem,
}
use cape_implementation.Bitvector.{Bitvector, get, set, unset, set_union, reset}
use cape_implementation.Bitvector.Buckets.{WellFormed}
use cape_implementation.Bitvector.Members.{
  get-set, set-get, set-WellFormed, get-unset, unset-WellFormed,
}
use cape_implementation.Bitvector.Union.{
  get-set_union, set_union-WellFormed, set_union-answer, get_nil,
}

-- The vector in which the given bits are set, one by one.
abbrev pub set_all : List ℕ → Bitvector → Bitvector
set_all [] m = m
set_all (x ∷ xs) m = set_all xs (set x m).1

-- The calls of a client; the other vector of a union is made by setting bits.
pub data VectorCall : Type 0 where
  get_call : ℕ → VectorCall
  set_call : ℕ → VectorCall
  unset_call : ℕ → VectorCall
  union_call : List ℕ → VectorCall
  reset_call : VectorCall

abbrev pub Answers : Type 0
Answers = List (Option Bool)

-- One call, with its answer; the answer of `unset` is left out.
unfoldable pub answer : VectorCall → Bitvector → Option Bool × Bitvector
answer (get_call i) m = (some (get i m), m)
answer (set_call i) m = let r = set i m in (some r.0, r.1)
answer (unset_call i) m = (none, (unset i m).1)
answer (union_call xs) m = let r = set_union (set_all xs []) m in (some r.0, r.1)
answer reset_call m = (none, reset m)

unfoldable pub run : List VectorCall → Bitvector → Answers
run [] m = []
run (c ∷ cs) m = let r = answer c m in r.0 ∷ run cs r.1

-- Some value of the list is not in the set.
abbrev pub any_new : List ℕ → (ℕ → Bool) → Bool
any_new [] s = false
any_new (x ∷ xs) s = not (s x) || any_new xs s

abbrev pub specify : VectorCall → (ℕ → Bool) → Option Bool × (ℕ → Bool)
specify (get_call i) s = (some (s i), s)
specify (set_call i) s = (some (s i), λ j. i == j || s j)
specify (unset_call i) s = (none, λ j. not (i == j) && s j)
specify (union_call xs) s = (some (any_new xs s), λ j. elem j xs || s j)
specify reset_call s = (none, λ j. false)

abbrev pub run_spec : List VectorCall → (ℕ → Bool) → Answers
run_spec [] s = []
run_spec (c ∷ cs) s = let r = specify c s in r.0 ∷ run_spec cs r.1

abbrev Represents : Bitvector → (ℕ → Bool) → Type 0
Represents m s = WellFormed m × ((j : ℕ) → get j m ≡ s j)

set_all-Represents :
    (xs : List ℕ) (m : Bitvector)
    → WellFormed m
    → Represents (set_all xs m) (λ j. elem j xs || get j m)
set_all-Represents [] m h = (h, λ j. refl)
set_all-Represents (x ∷ xs) m h =
    let rest = set_all-Represents xs (set x m).1 (set-WellFormed x m h) in
    (rest.0, λ j. ground (arith, rest.1 j, get-set x j m h))

any_new-fresh :
    (xs : List ℕ) (s : ℕ → Bool) (j : ℕ) → elem j xs ≡ true → s j ≡ false → any_new xs s ≡ true
any_new-fresh [] s j p q = absurd (ground arith)
any_new-fresh (x ∷ xs) s j p q =
    let same : x ≡ j → s x ≡ s j = λ e. ap s e in
    ground (arith, same, ==_iff x j, any_new-fresh xs s j)

any_new-known :
    (xs : List ℕ) (s : ℕ → Bool) → ((j : ℕ) → elem j xs ≡ true → s j ≡ true) → any_new xs s ≡ false
any_new-known [] s h = refl
any_new-known (x ∷ xs) s h =
    ground (arith, h x (ground arith), any_new-known xs s (λ j p. h j (ground (arith, p))))

union_answer :
    (xs : List ℕ) (m : Bitvector) (s : ℕ → Bool)
    → Represents m s
    → (set_union (set_all xs []) m).0 ≡ any_new xs s
union_answer xs m s h =
    let other = set_all-Represents xs [] tt in
    let inside : (j : ℕ) → get j (set_all xs []) ≡ elem j xs =
      λ j. ground (arith, other.1 j, get_nil j) in
    elim (set_union-answer (set_all xs []) 0 m other.0 h.0) [
      | inl (calm, known) ↦
          calm ∙ sym (any_new-known xs s (λ j p. ground (arith, inside j, known j, h.1 j)))
      | inr (flag, (j, here, absent)) ↦
          flag ∙ sym (any_new-fresh xs s j (ground (arith, inside j)) (ground (arith, h.1 j)))
    ]

-- One call keeps the vector a representation, and answers as the specification.
answer-Represents :
    (c : VectorCall) (m : Bitvector) (s : ℕ → Bool)
    → Represents m s
    → (answer c m).0 ≡ (specify c s).0 × Represents (answer c m).1 (specify c s).1
unfolding answer reset
answer-Represents (get_call i) m s h = (ap some (h.1 i), h)
answer-Represents (set_call i) m s h = (
  ap some (set-get i m ∙ h.1 i),
  (set-WellFormed i m h.0, λ j. get-set i j m h.0 ∙ ap (λ b. i == j || b) (h.1 j)),
)
answer-Represents (unset_call i) m s h = (
  refl,
  (unset-WellFormed i m h.0, λ j. get-unset i j m h.0 ∙ ap (λ b. not (i == j) && b) (h.1 j)),
)
answer-Represents (union_call xs) m s h =
    let other = set_all-Represents xs [] tt in
    (
      ap some (union_answer xs m s h),
      (
        set_union-WellFormed (set_all xs []) 0 m other.0 h.0,
        λ j.
            ground
              (arith, get-set_union (set_all xs []) 0 j m other.0 h.0, other.1 j, get_nil j, h.1 j),
      ),
    )
answer-Represents reset_call m s h = (refl, (tt, get_nil))

run-run_spec :
    (cs : List VectorCall) (m : Bitvector) (s : ℕ → Bool)
    → Represents m s
    → run cs m ≡ run_spec cs s
unfolding run
run-run_spec [] m s h = refl
run-run_spec (c ∷ cs) m s h =
    let step = answer-Represents c m s h in
    rw (step.0, run-run_spec cs (answer c m).1 (specify c s).1 step.1) refl

-- A client that starts from the empty sparse bit vector and calls get, set, unset, union and reset in
-- any order gets the answers of a set of numbers: set tells whether the number was there, and union
-- whether a number is new. The answer of unset is left out.
pub vector_refines : (cs : List VectorCall) → run cs [] ≡ run_spec cs (λ j. false)
vector_refines cs = run-run_spec cs [] (λ j. false) (tt, get_nil)
