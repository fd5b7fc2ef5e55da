-- ===== src/DefSite/Examples.antt =====
-- Definition sites of a few bytes.
use cape_implementation.Prelude.{◌≡◌, refl, true}
use cape_implementation.Offset.{unknown, is_unknown, add, sub}
use cape_implementation.DefSite.{
  intervals_disjunctive, intervals_overlap, DefSite, site_end, get_interval,
}

abbrev word : DefSite
word = record { target = 1; offset = 8; len = 4 }

abbrev anywhere : DefSite
anywhere = record { target = 1; offset = unknown; len = 4 }

word_bounds : get_interval word ≡ (8, 11)
unfolding get_interval is_unknown add sub
word_bounds = refl

word_end : site_end word ≡ 11
unfolding site_end is_unknown add sub
word_end = refl

-- Intervals given by their bounds, as the comment of the source has them.
bounds_differ : intervals_overlap 5 6 10 12 ≡ true
unfolding intervals_overlap intervals_disjunctive
bounds_differ = refl
