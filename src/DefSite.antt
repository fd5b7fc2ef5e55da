-- ===== src/DefSite.antt =====
-- include/dg/ReadWriteGraph/DefSite.h: the memory that a node defines. Memory objects are named by
-- numbers.
pub mod Bytes
mod Examples
use cape_implementation.Prelude.{
  ℕ, ◌-◌, Bool, true, false, ◌&&◌, not, ◌==◌, ltb, leb, if◌then◌else◌,
}
use cape_implementation.Offset.{unknown, is_unknown, add, sub}

-- `intervalsDisjunctive` for the starts `a` and `b`, which are known, and two lengths.
pub intervals_disjunctive : ℕ → ℕ → ℕ → ℕ → Bool
intervals_disjunctive a a_len b b_len =
    if a_len == unknown
    then (if b_len == unknown then false else if leb a b then false else leb b_len (a - b))
    else if b_len == unknown
    then (if leb a b then leb a_len (b - a) else false)
    else if leb a b
    then leb a_len (b - a)
    else leb b_len (a - b)

pub intervals_overlap : ℕ → ℕ → ℕ → ℕ → Bool
intervals_overlap a1 a2 b1 b2 = not (intervals_disjunctive a1 a2 b1 b2)

-- `GenericDefSite`.
pub record DefSite : Type 0 where
  pub target : ℕ
  pub offset : ℕ
  pub len : ℕ

-- `operator<`
pub site_lt : DefSite → DefSite → Bool
site_lt s t =
    if s.target == t.target
    then (if s.offset == t.offset then ltb s.len t.len else ltb s.offset t.offset)
    else ltb s.target t.target

-- `operator==`
pub site_eq : DefSite → DefSite → Bool
site_eq s t = s.target == t.target && s.offset == t.offset && s.len == t.len

-- `end`
pub site_end : DefSite → ℕ
site_end s = if is_unknown s.offset then unknown else add s.offset (sub s.len 1)

-- `getInterval`
unfoldable pub get_interval : DefSite → ℕ × ℕ
get_interval s =
    if is_unknown s.offset then (0, unknown) else (s.offset, add s.offset (sub s.len 1))
