-- ===== src/Placement/Address.antt =====
-- The test for an address dependency.
use cape_implementation.Prelude.{
  ℕ, ◌+◌, ◌-◌, ◌%◌, ◌^◌, ◌≡◌, inl, inr, refl, ap, Bool, Bool-cases, true, false, ◌||◌, ◌&&◌, not,
  List, [], ◌∷◌, arith, ◌==◌, ==_iff, if◌then◌else◌, elem,
}
use cape_implementation.Transaction.{State, set_node}
use cape_implementation.Placement.{check_address_dependency}

-- The node carries a secret: it is marked, and not only as a location that is pointed to.
abbrev pub is_secret : State → ℕ → ℕ → Bool
is_secret s slice_id n =
    not (s.node_slice n == 0 || s.node_slice n == (slice_id + 2 ^ 32 - 1) % 2 ^ 32)

-- `checkAddressDependency` answers true exactly where the node of the address is in the range and carries
-- a secret; then it marks that node, and else it leaves the state as it is.
pub check_address_dependency_correct :
    (ns : List ℕ) (addr slice_id : ℕ) (s : State)
    → check_address_dependency ns addr slice_id s ≡ (
        if elem addr ns && is_secret s slice_id addr
        then (true, set_node addr slice_id s)
        else (false, s))
unfolding check_address_dependency
check_address_dependency_correct [] addr slice_id s = refl
check_address_dependency_correct (n ∷ ns) addr slice_id s =
    let rest = check_address_dependency_correct ns addr slice_id s in
    elim (Bool-cases (n == addr)) [
      | inl same ↦
          let at_addr : n ≡ addr = ground (arith, ==_iff n addr) in
          let slice = ap s.node_slice at_addr in
          elim (Bool-cases (is_secret s slice_id addr)) [
            | inl secret ↦ ground (arith, at_addr, slice, secret)
            | inr public ↦ ground (arith, rest, slice, public)
          ]
      | inr differs ↦ elim (Bool-cases (is_secret s slice_id n)) [
        | inl secret ↦ ground (arith, rest, differs, secret)
        | inr public ↦ ground (arith, rest, differs, public)
      ]
    ]
