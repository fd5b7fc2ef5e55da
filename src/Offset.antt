-- ===== src/Offset.antt =====
-- include/dg/Offset.h: an offset into a memory object, a uint64_t of which the largest value stands
-- for "unknown". A value is a plain number; that it fits 64 bits is a hypothesis where it matters.
pub mod Saturation
mod Examples
use cape_implementation.Prelude.{
  ℕ, ◌+◌, ◌-◌, ◌^◌, ◌<◌, Bool, ◌&&◌, ◌||◌, ltb, leb, ◌==◌, if◌then◌else◌,
}

-- `Offset::UNKNOWN`, ~0.
abbrev pub unknown : ℕ
unknown = 2 ^ 64 - 1

-- A value of the type uint64_t.
abbrev pub IsWord : ℕ → Type 0
IsWord a = a < 2 ^ 64

unfoldable pub is_unknown : ℕ → Bool
is_unknown a = a == unknown

-- `operator+` and `operator+=`
unfoldable pub add : ℕ → ℕ → ℕ
add a b = if a == unknown || b == unknown || leb (unknown - b) a then unknown else a + b

-- `operator-`, and the binary operator that updates its left side
unfoldable pub sub : ℕ → ℕ → ℕ
sub a b = if a == unknown || b == unknown || ltb a b then unknown else a - b

-- `operator~`: the bitwise complement of a word
unfoldable pub complement : ℕ → ℕ
complement a = if a == unknown then unknown else unknown - a

unfoldable pub in_range : ℕ → ℕ → ℕ → Bool
in_range a from to = leb from a && leb a to
