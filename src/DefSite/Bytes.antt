-- ===== src/DefSite/Bytes.antt =====
-- The bytes of definition sites and of the intervals that are computed for them.
use cape_implementation.Prelude.{
  ℕ, ◌+◌, ◌<◌, ◌≡◌, ◌↔◌, ◌⊎◌, inl, inr, Bool, Bool-cases, true, false, ◌&&◌, ◌||◌, arith, ◌==◌, ltb,
  leb, max,
}
use cape_implementation.Offset.{unknown, IsWord, is_unknown, add, sub}
use cape_implementation.DefSite.{intervals_disjunctive, DefSite, site_lt, site_eq, get_interval}

-- The byte `x` lies in the interval that starts at `a` and has a length that can be unknown.
abbrev pub has_byte : ℕ → ℕ → ℕ → Bool
has_byte a len x = leb a x && (len == unknown || ltb x (a + len))

-- The intervals that `intervalsDisjunctive` calls disjunctive are, for lengths that are not 0, exactly those
-- that share no byte; an unknown length reaches to the end.
pub intervals_disjunctive_correct :
    (a a_len b b_len : ℕ)
    → 0 < a_len
    → 0 < b_len
    → (intervals_disjunctive a a_len b b_len ≡ true)
      ↔ ((x : ℕ) → (has_byte a a_len x && has_byte b b_len x) ≡ false)
unfolding intervals_disjunctive
intervals_disjunctive_correct a a_len b b_len p q =
    (λ e x. ground arith, λ h. let common = h (max a b) in ground arith)

upper_bound :
    (o l x : ℕ)
    → IsWord o
    → IsWord l
    → 0 < l
    → x < unknown
    → (o == unknown) ≡ false
    → leb x (add o (sub l 1)) ≡ (l == unknown || ltb x (o + l))
unfolding add sub
upper_bound o l x ho hl p q known = elim (Bool-cases (l == unknown)) [
  | inl no_length ↦ ground arith
  | inr length_known ↦ ground arith
]

-- A byte below the unknown offset lies between the bounds of `getInterval` exactly where the site can
-- define it: for an unknown offset any byte, else one that its length reaches.
pub get_interval_correct :
    (s : DefSite) (x : ℕ)
    → IsWord s.offset
    → IsWord s.len
    → 0 < s.len
    → x < unknown
    → (leb (get_interval s).0 x && leb x (get_interval s).1)
      ≡ (is_unknown s.offset || has_byte s.offset s.len x)
unfolding get_interval is_unknown
get_interval_correct s x ho hl p q = elim (Bool-cases (s.offset == unknown)) [
  | inl no_offset ↦ rw no_offset (ground arith)
  | inr known ↦ rw known (ground (arith, upper_bound s.offset s.len x ho hl p q known))
]

-- `operator<` orders the sites totally, equal ones by `operator==` excepted.
pub site_lt_total :
    (s t : DefSite)
    → (site_eq s t ≡ true) ⊎ (((site_lt s t ≡ true) ⊎ (site_lt t s ≡ true)) × (site_eq s t ≡ false))
unfolding site_lt site_eq
site_lt_total s t = ground arith

pub site_lt_trans : (s t u : DefSite) → site_lt s t ≡ true → site_lt t u ≡ true → site_lt s u ≡ true
unfolding site_lt
site_lt_trans s t u p q = ground arith
