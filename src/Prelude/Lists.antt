-- ===== src/Prelude/Lists.antt =====
-- Lists measured by native numbers, and ordered sets of numbers as lists.
use Prim.Native.Nat.{ℕ, suc, ◌+◌}
use mathlib.Core.Path.{◌≡◌, refl}
use mathlib.Core.Logic.{◌⊎◌, inl, inr}
use mathlib.Core.Bool.{Bool, true, false, ◌||◌}
use mathlib.Core.Option.{Option, none, some}
use mathlib.Core.List.{List, [], ◌∷◌, ◌++◌}
use native.Mathlib.Omega.{arith}
use cape_implementation.Prelude.Tests.{◌==◌, ltb, if◌then◌else◌}

module _ {ℓ} {A : Type ℓ} where
  abbrev pub length : List A → ℕ
  length [] = 0
  length (x ∷ xs) = suc (length xs)

  pub length-append : (xs ys : List A) → length (xs ++ ys) ≡ length xs + length ys
  length-append [] ys = omega arith
  length-append (x ∷ xs) ys = omega (arith, length-append xs ys)

  -- `--c.end()`, with `none` where the container is empty.
  abbrev pub last? : List A → Option A
  last? [] = none
  last? (x ∷ xs) = elim xs [ [] ↦ some x | _ ∷ _ ↦ last? xs ]

  pub last?-snoc : (xs : List A) (x : A) → last? (xs ++ x ∷ []) ≡ some x
  last?-snoc [] x = refl
  last?-snoc (y ∷ []) x = refl
  last?-snoc (y ∷ z ∷ xs) x = last?-snoc (z ∷ xs) x

  pub snoc-cases : (xs : List A) → (xs ≡ []) ⊎ ((front : List A) × (x : A) × (xs ≡ front ++ x ∷ []))
  snoc-cases [] = inl refl
  snoc-cases (x ∷ xs) = elim (snoc-cases xs) [
    | inl e ↦ inr ([], x, ground arith)
    | inr (front, y, e) ↦ inr (x ∷ front, y, ground arith)
  ]

  pub List-cases : (xs : List A) → (xs ≡ []) ⊎ ((x : A) × (rest : List A) × (xs ≡ x ∷ rest))
  List-cases [] = inl refl
  List-cases (x ∷ xs) = inr (x, xs, refl)

  -- Every element satisfies `P`.
  abbrev pub All {κ} : (A → Type κ) → List A → Type κ
  All P [] = Unit
  All P (x ∷ xs) = P x × All P xs

  pub All-imp {κ μ} :
      {P : A → Type κ} {Q : A → Type μ}
      → ((x : A) → P x → Q x)
      → (xs : List A) → All P xs
      → All Q xs
  All-imp f [] h = tt
  All-imp f (x ∷ xs) h = (f x h.0, All-imp f xs h.1)

-- `std::set<T>`, the elements named by numbers: `count` and `insert`.
abbrev pub elem : ℕ → List ℕ → Bool
elem a [] = false
elem a (x ∷ xs) = x == a || elem a xs

abbrev pub place : ℕ → List ℕ → List ℕ
place a [] = a ∷ []
place a (x ∷ xs) = if ltb a x then a ∷ x ∷ xs else x ∷ place a xs

abbrev pub insert : ℕ → List ℕ → List ℕ
insert a xs = if elem a xs then xs else place a xs

elem-place : (a b : ℕ) (xs : List ℕ) → elem b (place a xs) ≡ (a == b || elem b xs)
elem-place a b [] = refl
elem-place a b (x ∷ xs) = ground (arith, elem-place a b xs)

elem_absorb : (a b : ℕ) (xs : List ℕ) → elem a xs ≡ true → elem b xs ≡ (a == b || elem b xs)
elem_absorb a b [] h = cc
elem_absorb a b (x ∷ xs) h = ground (arith, elem_absorb a b xs)

pub elem-insert : (a b : ℕ) (xs : List ℕ) → elem b (insert a xs) ≡ (a == b || elem b xs)
elem-insert a b xs = ground (arith, elem-place a b xs, elem_absorb a b xs)

pub elem-append : (a : ℕ) (xs ys : List ℕ) → elem a (xs ++ ys) ≡ (elem a xs || elem a ys)
elem-append a [] ys = refl
elem-append a (x ∷ xs) ys = ground (arith, elem-append a xs ys)
