-- ===== src/NodesWalk/Room.antt =====
-- How many nodes a list without repetition has room for below a bound.
use cape_implementation.Prelude.{
  ℕ, zero, suc, ◌+◌, ◌≤◌, ◌<◌, ◌≡◌, refl, true, List, [], ◌∷◌, arith, ltb, elem, if◌then◌else◌,
  length,
}
use cape_implementation.Queue.Once.{times}

pub elem-times :
    (a : ℕ) (xs : List ℕ)
    → (elem a xs ≡ true → 0 < times xs a) × (0 < times xs a → elem a xs ≡ true)
elem-times a [] = (λ e. absurd (ground arith), λ p. absurd (omega arith))
elem-times a (x ∷ xs) =
    let rest = elem-times a xs in (λ e. ground (arith, rest.0), λ p. ground (arith, rest.1))

-- How often the numbers below a bound are in a list.
room : ℕ → List ℕ → ℕ
room zero xs = 0
room (suc n) xs = times xs n + room n xs

room-cons : (n x : ℕ) (xs : List ℕ) → room n (x ∷ xs) ≡ room n xs + (if ltb x n then 1 else 0)
unfolding room
room-cons zero x xs = ground arith
room-cons (suc n) x xs = ground (arith, room-cons n x xs)

room_none : (n : ℕ) → room n [] ≡ 0
unfolding room
room_none zero = refl
room_none (suc n) = omega (arith, room_none n)

room-length : (n : ℕ) (xs : List ℕ) → ((a : ℕ) → elem a xs ≡ true → a < n) → length xs ≡ room n xs
room-length n [] h = omega (arith, room_none n)
room-length n (x ∷ xs) h =
    ground (
      arith,
      room-cons n x xs,
      h x (ground arith),
      room-length n xs (λ a e. h a (ground (arith, e))),
    )

room_le : (n : ℕ) (xs : List ℕ) → ((a : ℕ) → times xs a ≤ 1) → room n xs ≤ n
unfolding room
room_le zero xs h = omega arith
room_le (suc n) xs h = omega (arith, h n, room_le n xs h)

-- A list without repetition of numbers below a bound is no longer than the bound.
pub no_crowd :
    (n : ℕ) (xs : List ℕ)
    → ((a : ℕ) → times xs a ≤ 1)
    → ((a : ℕ) → elem a xs ≡ true → a < n)
    → length xs ≤ n
no_crowd n xs once below = omega (arith, room-length n xs below, room_le n xs once)
