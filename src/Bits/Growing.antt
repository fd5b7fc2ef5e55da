-- ===== src/Bits/Growing.antt =====
-- Lists of numbers that grow: they are determined by their members.
use cape_implementation.Prelude.{
  ℕ, suc, ◌≤◌, ◌≡◌, refl, sym, ap, ◌∙◌, arith, ==_iff, ltb, true, false, Bool-cases, inl, inr, List,
  [], ◌∷◌, elem, insert, place,
}

abbrev pub Growing : ℕ → List ℕ → Type 0
Growing low [] = Unit
Growing low (x ∷ xs) = low ≤ x × Growing (suc x) xs

pub Growing-weaken : (low lower : ℕ) (xs : List ℕ) → lower ≤ low → Growing low xs → Growing lower xs
Growing-weaken low lower [] p h = tt
Growing-weaken low lower (x ∷ xs) p h = (omega (arith, h.0), h.1)

pub Growing-elem : (low j : ℕ) (xs : List ℕ) → Growing low xs → elem j xs ≡ true → low ≤ j
Growing-elem low j [] h p = absurd (ground arith)
Growing-elem low j (x ∷ xs) h p = ground (arith, h.0, ==_iff x j, Growing-elem (suc x) j xs h.1)

Growing-head : (low x y : ℕ) (ys : List ℕ) → Growing low (y ∷ ys) → elem x (y ∷ ys) ≡ true → y ≤ x
Growing-head low x y ys h p = ground (arith, ==_iff y x, Growing-elem (suc y) x ys h.1)

tail_same :
    (x j : ℕ) (xs ys : List ℕ)
    → Growing (suc x) xs
    → Growing (suc x) ys
    → elem j (x ∷ xs) ≡ elem j (x ∷ ys)
    → elem j xs ≡ elem j ys
tail_same x j xs ys g h e =
    ground (arith, e, ==_iff x j, Growing-elem (suc x) j xs g, Growing-elem (suc x) j ys h)

pub Growing-unique :
    (low : ℕ) (xs ys : List ℕ)
    → Growing low xs
    → Growing low ys
    → ((j : ℕ) → elem j xs ≡ elem j ys)
    → xs ≡ ys
Growing-unique low [] [] g h same = refl
Growing-unique low [] (y ∷ ys) g h same = absurd (ground (arith, same y))
Growing-unique low (x ∷ xs) [] g h same = absurd (ground (arith, same x))
Growing-unique low (x ∷ xs) (y ∷ ys) g h same =
    let first : x ≡ y = ground (
      arith,
      same x,
      same y,
      Growing-head low x y ys h,
      Growing-head low y x xs g,
      Growing-elem low x (x ∷ xs) g,
    ) in
    let later : Growing (suc x) ys = Growing-weaken (suc y) (suc x) ys (omega (arith, first)) h.1 in
    let heads : (j : ℕ) → elem j (x ∷ xs) ≡ elem j (x ∷ ys) =
      λ j. same j ∙ ap (λ z. elem j (z ∷ ys)) (sym first) in
    rw (sym first) (
      ap (λ zs. x ∷ zs)
        (Growing-unique (suc x) xs ys g.1 later (λ j. tail_same x j xs ys g.1 later (heads j))))

place-Growing :
    (low n : ℕ) (xs : List ℕ)
    → low ≤ n
    → elem n xs ≡ false
    → Growing low xs
    → Growing low (place n xs)
place-Growing low n [] p e h = (p, tt)
place-Growing low n (x ∷ xs) p e h = elim (Bool-cases (ltb n x)) [
  | inl before ↦ rw before (p, (ground arith, h.1))
  | inr after ↦ rw after (h.0, place-Growing (suc x) n xs (ground arith) (ground arith) h.1)
]

pub insert-Growing :
    (low n : ℕ) (xs : List ℕ) → low ≤ n → Growing low xs → Growing low (insert n xs)
insert-Growing low n xs p h = elim (Bool-cases (elem n xs)) [
  | inl old ↦ rw old h
  | inr new ↦ rw new (place-Growing low n xs p new h)
]

pub Growing-empty : (xs : List ℕ) → ((j : ℕ) → elem j xs ≡ false) → xs ≡ []
Growing-empty [] h = refl
Growing-empty (x ∷ xs) h = absurd (ground (arith, h x))
