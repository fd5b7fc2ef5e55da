-- ===== src/BasicBlock/Edges.antt =====
-- The sets of edges and blocks by their members, and what the single updates of the store do to them.
use cape_implementation.Prelude.{
  ℕ, ◌≡◌, subst, refl, ap, Bool-cases, inl, inr, Bool, true, false, ◌||◌, ◌&&◌, not, List, [], ◌∷◌,
  arith, ◌==◌, ==_iff, if◌then◌else◌, elem,
}
use cape_implementation.BasicBlock.{
  BlockEdge, same_edge, less_edge, has_edge, place_edge, insert_edge, erase_edge, erase_block,
  Store, set_next, set_prev,
}

-- Some edge of the set has the target.
abbrev pub has_target : ℕ → List BlockEdge → Bool
has_target b [] = false
has_target b ((t, l) ∷ es) = t == b || has_target b es

same_edge_iff : (t l u k : ℕ) → same_edge (t, l) (u, k) ≡ true → (t ≡ u) × (l ≡ k)
same_edge_iff t l u k e = ground (arith, e, ==_iff t u, ==_iff l k)

has_edge-place_edge :
    (t l b k : ℕ) (es : List BlockEdge)
    → has_edge (b, k) (place_edge (t, l) es) ≡ (same_edge (t, l) (b, k) || has_edge (b, k) es)
has_edge-place_edge t l b k [] = refl
has_edge-place_edge t l b k ((u, m) ∷ es) = elim (Bool-cases (less_edge (t, l) (u, m))) [
  | inl before ↦ rw before refl
  | inr after ↦
      rw (after, has_edge-place_edge t l b k es)
        (swap_or (same_edge (u, m) (b, k)) (same_edge (t, l) (b, k)) (has_edge (b, k) es))
]
  where
    swap_or : (x y z : Bool) → (x || (y || z)) ≡ (y || (x || z))
    swap_or x y z = ground arith

has_edge_absorb :
    (t l b k : ℕ) (es : List BlockEdge)
    → has_edge (t, l) es ≡ true
    → same_edge (t, l) (b, k) ≡ true
    → has_edge (b, k) es ≡ true
has_edge_absorb t l b k es h e =
    let same = same_edge_iff t l b k e in
    subst (λ z. has_edge (b, z) es ≡ true) same.1 (subst (λ z. has_edge (z, l) es ≡ true) same.0 h)

pub has_edge-insert_edge :
    (t l b k : ℕ) (es : List BlockEdge)
    → has_edge (b, k) (insert_edge (t, l) es) ≡ (same_edge (t, l) (b, k) || has_edge (b, k) es)
unfolding insert_edge
has_edge-insert_edge t l b k es = elim (Bool-cases (has_edge (t, l) es)) [
  | inl old ↦
      rw old
        (absorb (same_edge (t, l) (b, k)) (has_edge (b, k) es) (has_edge_absorb t l b k es old))
  | inr new ↦ rw new (has_edge-place_edge t l b k es)
]
  where
    absorb : (x y : Bool) → (x ≡ true → y ≡ true) → y ≡ (x || y)
    absorb x y f = ground (arith, f)

pub has_edge-erase_edge :
    (t l b k : ℕ) (es : List BlockEdge)
    → has_edge (b, k) (erase_edge (t, l) es) ≡ (not (same_edge (t, l) (b, k)) && has_edge (b, k) es)
unfolding erase_edge
has_edge-erase_edge t l b k [] = ground arith
has_edge-erase_edge t l b k ((u, m) ∷ es) = ground (
  arith,
  has_edge-erase_edge t l b k es,
  ==_iff u t,
  ==_iff m l,
  ==_iff t b,
  ==_iff l k,
  ==_iff u b,
  ==_iff m k,
)

has_target-place_edge :
    (t l b : ℕ) (es : List BlockEdge)
    → has_target b (place_edge (t, l) es) ≡ (t == b || has_target b es)
has_target-place_edge t l b [] = refl
has_target-place_edge t l b ((u, m) ∷ es) = elim (Bool-cases (less_edge (t, l) (u, m))) [
  | inl before ↦ rw before refl
  | inr after ↦
      rw (after, has_target-place_edge t l b es) (swap_or (u == b) (t == b) (has_target b es))
]
  where
    swap_or : (x y z : Bool) → (x || (y || z)) ≡ (y || (x || z))
    swap_or x y z = ground arith

pub has_edge-has_target :
    (b k : ℕ) (es : List BlockEdge) → has_edge (b, k) es ≡ true → has_target b es ≡ true
has_edge-has_target b k [] h = absurd (ground arith)
has_edge-has_target b k ((u, m) ∷ es) h = ground (arith, h, has_edge-has_target b k es)

pub has_target-edge :
    (b : ℕ) (es : List BlockEdge) → has_target b es ≡ true → (k : ℕ) × (has_edge (b, k) es ≡ true)
has_target-edge b [] h = absurd (ground arith)
has_target-edge b ((u, m) ∷ es) h = elim (Bool-cases (u == b)) [
  | inl same ↦ (m, ground (arith, same, ==_iff m m))
  | inr other ↦ let (k, e) = has_target-edge b es (ground (arith, h)) in (k, ground (arith, e))
]

pub has_target-insert_edge :
    (t l b : ℕ) (es : List BlockEdge)
    → has_target b (insert_edge (t, l) es) ≡ (t == b || has_target b es)
unfolding insert_edge
has_target-insert_edge t l b es = elim (Bool-cases (has_edge (t, l) es)) [
  | inl old ↦
      let there : t ≡ b → has_target b es ≡ true =
        λ e. subst (λ z. has_target z es ≡ true) e (has_edge-has_target t l es old) in
      rw old (ground (arith, there, ==_iff t b))
  | inr new ↦ rw new (has_target-place_edge t l b es)
]

pub has_target-erase_edge :
    (t l b : ℕ) (es : List BlockEdge)
    → (t == b) ≡ false
    → has_target b (erase_edge (t, l) es) ≡ has_target b es
unfolding erase_edge
has_target-erase_edge t l b [] h = refl
has_target-erase_edge t l b ((u, m) ∷ es) h =
    ground (arith, has_target-erase_edge t l b es, h, ==_iff u t, ==_iff u b, ==_iff t b)

pub elem-erase_block :
    (x y : ℕ) (xs : List ℕ) → elem y (erase_block x xs) ≡ (not (x == y) && elem y xs)
unfolding erase_block
elem-erase_block x y [] = ground arith
elem-erase_block x y (z ∷ xs) =
    ground (arith, elem-erase_block x y xs, ==_iff z x, ==_iff x y, ==_iff z y)

-- What the store says of two blocks: an edge with a label, some edge, and the predecessor.
abbrev pub edge : Store → ℕ → ℕ → ℕ → Bool
edge st a b l = has_edge (b, l) (st a).next

abbrev pub leads : Store → ℕ → ℕ → Bool
leads st a b = has_target b (st a).next

abbrev pub comes : Store → ℕ → ℕ → Bool
comes st b a = elem a (st b).prev

pub next-set_next :
    (a y : ℕ) (es : List BlockEdge) (st : Store)
    → (set_next a es st y).next ≡ (if a == y then es else (st y).next)
unfolding set_next
next-set_next a y es st = elim (Bool-cases (a == y)) [ inl e ↦ rw e refl | inr e ↦ rw e refl ]

pub prev-set_next :
    (a y : ℕ) (es : List BlockEdge) (st : Store) → (set_next a es st y).prev ≡ (st y).prev
unfolding set_next
prev-set_next a y es st = elim (Bool-cases (a == y)) [
  | inl e ↦ rw e (ap (λ z. (st z).prev) ((==_iff a y).0 e))
  | inr e ↦ rw e refl
]

pub prev-set_prev :
    (a y : ℕ) (xs : List ℕ) (st : Store)
    → (set_prev a xs st y).prev ≡ (if a == y then xs else (st y).prev)
unfolding set_prev
prev-set_prev a y xs st = elim (Bool-cases (a == y)) [ inl e ↦ rw e refl | inr e ↦ rw e refl ]

pub next-set_prev : (a y : ℕ) (xs : List ℕ) (st : Store) → (set_prev a xs st y).next ≡ (st y).next
unfolding set_prev
next-set_prev a y xs st = elim (Bool-cases (a == y)) [
  | inl e ↦ rw e (ap (λ z. (st z).next) ((==_iff a y).0 e))
  | inr e ↦ rw e refl
]
