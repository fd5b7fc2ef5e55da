-- ===== src/Offset/Examples.antt =====
-- Tests of the offset arithmetic, and the theorems at concrete offsets.
use cape_implementation.Prelude.{◌+◌, ◌-◌, ◌≢◌, ◌≤◌, ◌<◌, ◌≡◌, refl, arith}
use cape_implementation.Offset.{unknown, IsWord, add, sub}
use cape_implementation.Offset.Saturation.{add_saturates, sub-add}

sums : (add 3 4 ≡ 7) × (add (unknown - 1) 1 ≡ unknown) × (sub 3 4 ≡ unknown) × (sub 4 3 ≡ 1)
unfolding add sub
sums = (refl, refl, refl, refl)

add_saturates_example :
    IsWord (add 3 4) × (3 + 4 < unknown → add 3 4 ≡ 3 + 4) × (unknown ≤ 3 + 4 → add 3 4 ≡ unknown)
add_saturates_example = add_saturates 3 4 (omega arith) (omega arith)

seven_known : add 3 4 ≢ unknown
unfolding add
seven_known = omega arith

sub-add_example : sub (add 3 4) 4 ≡ 3
sub-add_example = sub-add 3 4 (omega arith) (omega arith) seven_known
