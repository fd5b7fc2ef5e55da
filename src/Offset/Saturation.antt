-- ===== src/Offset/Saturation.antt =====
-- The arithmetic of offsets never wraps: it saturates to the unknown offset.
use cape_implementation.Prelude.{ℕ, ◌+◌, ◌-◌, ◌<◌, ◌≤◌, ◌≡◌, ◌≢◌, arith}
use cape_implementation.Offset.{unknown, IsWord, add, sub, complement}

-- For all offsets a and b: the sum fits a word; it is a + b where a + b lies below the
-- unknown value, and otherwise it is unknown.
pub add_saturates :
    (a b : ℕ)
    → IsWord a
    → IsWord b
    → IsWord (add a b)
      × ((a + b < unknown) → add a b ≡ a + b)
      × (unknown ≤ a + b → add a b ≡ unknown)
unfolding add
add_saturates a b p q = (ground arith, λ h. ground arith, λ h. ground arith)

pub add_comm : (a b : ℕ) → IsWord a → IsWord b → add a b ≡ add b a
unfolding add
add_comm a b p q = ground arith

-- Sums of offsets can be regrouped, with overflow and the unknown offset in any place.
pub add_assoc : (a b c : ℕ) → IsWord a → IsWord b → IsWord c → add (add a b) c ≡ add a (add b c)
unfolding add
add_assoc a b c p q r = ground arith

-- Where the sum of two offsets is known, subtracting one of them gives back the other.
pub sub-add : (a b : ℕ) → IsWord a → IsWord b → add a b ≢ unknown → sub (add a b) b ≡ a
unfolding add sub
sub-add a b p q h = ground arith

-- `start - 1` and `end + 1` at known offsets, as the interval map uses them.
pub sub-one_lem : (a : ℕ) → 0 < a → a < unknown → sub a 1 ≡ a - 1
unfolding sub
sub-one_lem a p q = ground arith

pub add-one_lem : (a : ℕ) → a < unknown → add a 1 ≡ a + 1
unfolding add
add-one_lem a q = ground arith

pub complement-complement : (a : ℕ) → IsWord a → a ≢ unknown → a ≢ 0 → complement (complement a) ≡ a
unfolding complement
complement-complement a p q r = ground arith
