-- ===== src/Worklist/Reach.antt =====
-- What a search that ends has seen and expanded: what can be reached without the barred blocks.
use cape_implementation.Prelude.{
  ℕ, zero, suc, ◌≡◌, ◌↔◌, inl, inr, refl, ap, ◌∙◌, Bool-cases, true, false, ◌||◌, ◌&&◌, not, some,
  List, [], ◌∷◌, arith, ◌==◌, ==_iff, elem, elem-append, length, length-append, List-cases,
}
use cape_implementation.Worklist.{push_front, push_back, Search, offer, offer_all, expand, explore}

-- The law of a container that the search relies on.
pub record IsPush (push : ℕ → List ℕ → List ℕ) : Type 0 where
  pub elem_push : (a x : ℕ) (q : List ℕ) → elem a (push x q) ≡ (x == a || elem a q)
  pub length_push : (x : ℕ) (q : List ℕ) → length (push x q) ≡ suc (length q)

pub push_front-IsPush : IsPush push_front
push_front-IsPush = record { elem_push = λ a x q. refl; length_push = λ x q. refl }

pub push_back-IsPush : IsPush push_back
push_back-IsPush = record {
  elem_push = λ a x q. elem-append a q (x ∷ []) ∙ ground arith;
  length_push = λ x q. omega (arith, length-append q (x ∷ []));
}

module _ (next : ℕ → List ℕ) (start : List ℕ) (barred : List ℕ) where
  -- The walks from the blocks of `start` that enter no barred block.
  pub data Walk : ℕ → Type 0 where
    here : {a : ℕ} → elem a start ≡ true → Walk a
    step : {a b : ℕ} → Walk a → elem b (next a) ≡ true → elem b barred ≡ false → Walk b

  module _ (push : ℕ → List ℕ → List ℕ) (law : IsPush push) where
    offer_all_seen :
        (xs : List ℕ) (s : Search) (a : ℕ)
        → elem a (offer_all push xs s).seen ≡ (elem a s.seen || elem a xs)
    unfolding offer_all offer
    offer_all_seen [] s a = ground arith
    offer_all_seen (x ∷ xs) s a = ground (arith, offer_all_seen xs (offer push x s) a)

    pub offer_all_expanded :
        (xs : List ℕ) (s : Search) → (offer_all push xs s).expanded ≡ s.expanded
    unfolding offer_all offer
    offer_all_expanded [] s = refl
    offer_all_expanded (x ∷ xs) s = ground (arith, offer_all_expanded xs (offer push x s))

    -- What is pushed is what was not seen before.
    offer_all_pending :
        (xs : List ℕ) (s : Search) (a : ℕ)
        → elem a (offer_all push xs s).pending
          ≡ (elem a s.pending || (elem a xs && not (elem a s.seen)))
    unfolding offer_all offer
    offer_all_pending [] s a = ground arith
    offer_all_pending (x ∷ xs) s a =
        ground (arith, offer_all_pending xs (offer push x s) a, law.elem_push a x s.pending)

    record Inv (s : Search) : Type 0 where
      walked : (a : ℕ) → (elem a s.pending || elem a s.expanded) ≡ true → Walk a
      known : (a : ℕ) → elem a s.seen ≡ (elem a barred || elem a s.pending || elem a s.expanded)
      started : (a : ℕ) → elem a start ≡ true → (elem a s.pending || elem a s.expanded) ≡ true
      closed : (a b : ℕ) → elem a s.expanded ≡ true → elem b (next a) ≡ true → elem b s.seen ≡ true

    module _ (s : Search) (cur : ℕ) (rest : List ℕ) (e : s.pending ≡ cur ∷ rest) (h : Inv s) where
      expand-Inv : Inv (expand push next s cur rest)
      unfolding expand
      expand-Inv =
          let s' = record s { pending = rest; expanded = cur ∷ s.expanded } in
          let front = λ (a : ℕ). ap (elem a) e in
          let seen = offer_all_seen (next cur) s' in
          let pending = offer_all_pending (next cur) s' in
          let expanded = λ (a : ℕ). ap (elem a) (offer_all_expanded (next cur) s') in
          record {
            walked = λ a p. elim (Bool-cases (elem a s.pending || elem a s.expanded)) [
              | inl old ↦ h.walked a old
              | inr new ↦
                  step (h.walked cur (ground (arith, front cur)))
                    (ground (arith, pending a, expanded a, front a))
                    (ground (arith, pending a, expanded a, front a, h.known a))
            ];
            known = λ a. ground (arith, seen a, pending a, expanded a, front a, h.known a);
            started = λ a p. ground (arith, pending a, expanded a, front a, h.started a p);
            closed = λ a b p q. ground (arith, seen b, expanded a, h.closed a b, ==_iff cur a);
          }

    explore-Inv :
        (fuel : ℕ) (s t : Search)
        → Inv s
        → explore push next fuel s ≡ some t
        → Inv t × (t.pending ≡ [])
    unfolding explore
    explore-Inv zero s t h e = elim (List-cases s.pending) [
      | inl empty ↦ ground arith
      | inr (cur, rest, p) ↦ absurd (ground arith)
    ]
    explore-Inv (suc fuel) s t h e = elim (List-cases s.pending) [
      | inl empty ↦ ground arith
      | inr (cur, rest, p) ↦
          explore-Inv fuel (expand push next s cur rest) t (expand-Inv s cur rest p h)
            (rw (p, explore) at e)
    ]

    expanded_of_Walk :
        (t : Search) → Inv t → t.pending ≡ [] → {a : ℕ} → Walk a → elem a t.expanded ≡ true
    expanded_of_Walk t h e (here {a} p) = ground (arith, h.started a p, ap (elem a) e)
    expanded_of_Walk t h e (step {a} {b} w q r) =
        let before = expanded_of_Walk t h e w in
        ground (arith, h.closed a b before q, h.known b, ap (elem b) e)

    -- A search from `start` that ends: it has expanded exactly the blocks with a walk to them, and
    -- seen these and the barred ones.
    pub explore_reaches :
        (fuel : ℕ) (t : Search)
        → ((a : ℕ) → elem a start ≡ true → elem a barred ≡ true)
        → explore push next fuel (record { seen = barred; pending = start; expanded = [] }) ≡ some t
        → (a : ℕ)
        → ((elem a t.expanded ≡ true) ↔ Walk a)
          × (elem a t.seen ≡ (elem a barred || elem a t.expanded))
    explore_reaches fuel t sub e a =
        let first : Inv (record { seen = barred; pending = start; expanded = [] }) = record {
          walked = λ b p. here (ground arith);
          known = λ b. ground (arith, sub b);
          started = λ b p. ground arith;
          closed = λ b c p q. cc;
        } in
        let (h, empty) = explore-Inv fuel _ t first e in
        (
          (λ p. h.walked a (ground arith), expanded_of_Walk t h empty),
          ground (arith, h.known a, ap (elem a) empty),
        )
