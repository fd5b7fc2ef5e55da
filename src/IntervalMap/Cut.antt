-- ===== src/IntervalMap/Cut.antt =====
-- The invariant of the map, what it holds at a byte, and the cut of a map at a byte.
use cape_implementation.Prelude.{
  ℕ, suc, ◌-◌, ◌≤◌, ◌<◌, ◌≡◌, ◌≢◌, refl, Bool, false, ◌&&◌, List, [], ◌∷◌, ◌++◌, arith, leb, ltb,
  if◌then◌else◌, All,
}
use cape_implementation.Offset.{unknown}
use cape_implementation.IntervalMap.{Entry, Mapping}

-- The bounds of an interval that the map can hold. The last offset below the unknown one is no end,
-- so that the arithmetic of offsets stays exact on the borders.
pub record IsFit (start end : ℕ) : Type 0 where
  pub ordered : start ≤ end
  pub known : start < unknown
  pub word : end ≤ unknown
  pub not_last : suc end ≢ unknown

-- Entries in order, disjunctive, none of them before `lo`.
abbrev pub IsValidFrom : ℕ → Mapping → Type 0
IsValidFrom lo [] = Unit
IsValidFrom lo (e ∷ m) = (lo ≤ e.start) × IsFit e.start e.end × IsValidFrom (suc e.end) m

abbrev pub IsValid : Mapping → Type 0
IsValid = IsValidFrom 0

abbrev pub covers : Entry → ℕ → Bool
covers e b = leb e.start b && leb b e.end

-- The values that the map holds at the byte `b`.
abbrev pub values_at : Mapping → ℕ → List ℕ
values_at [] b = []
values_at (e ∷ m) b = if covers e b then e.values else values_at m b

-- The entry that goes over the border before `s` is divided there.
unfoldable pub cut : ℕ → Mapping → Mapping
cut s [] = []
cut s (e ∷ m) =
    if ltb e.start s && leb s e.end
    then record e { end = s - 1 } ∷ record e { start = s } ∷ m
    else e ∷ cut s m

-- No entry goes over the border before `s`.
abbrev pub IsAligned : ℕ → Mapping → Type 0
IsAligned s = All (λ e. ltb e.start s && leb s e.end ≡ false)

pub IsValidFrom-weaken :
    (lo lo' : ℕ) (m : Mapping) → lo' ≤ lo → IsValidFrom lo m → IsValidFrom lo' m
IsValidFrom-weaken lo lo' [] h v = tt
IsValidFrom-weaken lo lo' (e ∷ m) h v = (omega arith, v.1, v.2)

pub values_at-below : (lo b : ℕ) (m : Mapping) → IsValidFrom lo m → b < lo → values_at m b ≡ []
values_at-below lo b [] v h = refl
values_at-below lo b (e ∷ m) v h = ground (arith, values_at-below (suc e.end) b m)

-- A cut keeps the invariant, holds the same values at each byte, and is aligned.
pub values_at-cut : (s b : ℕ) (m : Mapping) → values_at (cut s m) b ≡ values_at m b
unfolding cut
values_at-cut s b [] = refl
values_at-cut s b (e ∷ m) = ground (arith, values_at-cut s b m)

IsAligned-above : (s lo : ℕ) (m : Mapping) → s ≤ lo → IsValidFrom lo m → IsAligned s m
IsAligned-above s lo [] h v = tt
IsAligned-above s lo (e ∷ m) h v = (ground arith, IsAligned-above s (suc e.end) m (omega arith) v.2)

pub cut-IsAligned : (s lo : ℕ) (m : Mapping) → IsValidFrom lo m → IsAligned s (cut s m)
unfolding cut
cut-IsAligned s lo [] v = tt
cut-IsAligned s lo (e ∷ m) v =
    ground (arith, cut-IsAligned s (suc e.end) m, IsAligned-above s (suc e.end) m)

-- A cut at one border keeps the alignment at another one.
pub cut-IsAligned_other : (s t : ℕ) (m : Mapping) → IsAligned t m → IsAligned t (cut s m)
unfolding cut
cut-IsAligned_other s t [] a = tt
cut-IsAligned_other s t (e ∷ m) a = ground (arith, cut-IsAligned_other s t m)

pub cut_aligned : (s : ℕ) (m : Mapping) → IsAligned s m → cut s m ≡ m
unfolding cut
cut_aligned s [] a = refl
cut_aligned s (e ∷ m) a = ground (arith, cut_aligned s m)

pub cut_beyond : (s lo : ℕ) (m : Mapping) → s ≤ lo → IsValidFrom lo m → cut s m ≡ m
cut_beyond s lo m h v = cut_aligned s m (IsAligned-above s lo m h v)

pub cut-append :
    (s : ℕ) (front m : Mapping) → All (λ e. e.end < s) front → cut s (front ++ m) ≡ front ++ cut s m
unfolding cut
cut-append s [] m h = refl
cut-append s (e ∷ front) m h = ground (arith, cut-append s front m)

pub cut_skip :
    (s : ℕ) (e : Entry) (m : Mapping)
    → ltb e.start s && leb s e.end ≡ false
    → cut s (e ∷ m) ≡ e ∷ cut s m
unfolding cut
cut_skip s e m h = rw h

-- Past the largest word there is nothing to cut.
pub cut-IsValidFrom :
    (s lo : ℕ) (m : Mapping) → s ≢ unknown → IsValidFrom lo m → IsValidFrom lo (cut s m)
unfolding cut
cut-IsValidFrom s lo [] h v = tt
cut-IsValidFrom s lo (e ∷ m) h v = ground (arith, cut-IsValidFrom s (suc e.end) m h)
