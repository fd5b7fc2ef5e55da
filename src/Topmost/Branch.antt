-- ===== src/Topmost/Branch.antt =====
-- The blocks with a sensitive branch that `processBBlockRevCDs` looks for.
use cape_implementation.Prelude.{
  ℕ, ◌≡◌, ◌↔◌, inl, inr, sym, ◌∙◌, subst, Bool, Bool-cases, Option-cases, true, false, ==_iff, ◌||◌,
  ◌&&◌, not, none, some, List, [], ◌∷◌, arith, ◌==◌, elem,
}
use cape_implementation.Transaction.{Program, State, is_branch}
use cape_implementation.Topmost.{Dependences, immediate_branch, first_branch}

module _ (p : Program) (d : Dependences) where
  -- The block `cd` is sensitive, not in the loop of the handler, and ends in the sensitive branch `last`.
  pub record IsBranchOf (s : State) (is_loop : Bool) (loop : List ℕ) (cd last : ℕ) : Type 0 where
    pub at_end : p.last_node cd ≡ some last
    pub sensitive : (s.block_slice cd == 0 || s.node_slice last == 0) ≡ false
    pub branches : is_branch (p.opcode last) ≡ true
    pub outside : (is_loop && elem cd loop) ≡ false

  immediate_branch-IsBranchOf :
      (s : State) (is_loop : Bool) (loop : List ℕ) (cd last : ℕ)
      → (immediate_branch p d s is_loop loop cd ≡ some last) ↔ IsBranchOf s is_loop loop cd last
  unfolding immediate_branch
  immediate_branch-IsBranchOf s is_loop loop cd last = (
    λ e. elim (Bool-cases (s.block_slice cd == 0 || (is_loop && elem cd loop))) [
      | inl skipped ↦ absurd (ground arith)
      | inr taken ↦ elim (Option-cases (p.last_node cd)) [
        | inl no_node ↦ absurd (ground arith)
        | inr (i, f) ↦ elim (Bool-cases (s.node_slice i == 0 || not (is_branch (p.opcode i)))) [
          | inl unfit ↦ absurd (ground arith)
          | inr fit ↦
              subst (λ x. IsBranchOf s is_loop loop cd x) (ground arith)
                (record {
                  at_end = f;
                  sensitive = ground arith;
                  branches = ground arith;
                  outside = ground arith;
                })
        ]
      ]
    ],
    λ b. ground (arith, b.at_end, b.sensitive, b.branches, b.outside),
  )

  -- None of the given blocks has such a branch.
  abbrev pub NoBranch : State → Bool → List ℕ → List ℕ → Type 0
  NoBranch s is_loop loop cds =
      (cd last : ℕ) → elem cd cds ≡ true → ¬ IsBranchOf s is_loop loop cd last

  pub first_branch-IsBranchOf :
      (s : State) (is_loop : Bool) (loop cds : List ℕ) (cd last : ℕ)
      → first_branch p d s is_loop loop cds ≡ some (cd, last)
      → (elem cd cds ≡ true) × IsBranchOf s is_loop loop cd last
  unfolding first_branch
  first_branch-IsBranchOf s is_loop loop [] cd last e = absurd (ground arith)
  first_branch-IsBranchOf s is_loop loop (c ∷ cds) cd last e =
      elim (Option-cases (immediate_branch p d s is_loop loop c)) [
        | inl no_branch ↦
            let (m, b) =
              first_branch-IsBranchOf s is_loop loop cds cd last
                (rw (no_branch, first_branch) at e) in
            (ground (arith, m), b)
        | inr (i, f) ↦
            let same : c ≡ cd = ground arith in
            (
              ground (arith, ==_iff c cd),
              subst (λ x. IsBranchOf s is_loop loop x last) same
                  ((immediate_branch-IsBranchOf s is_loop loop c last).0 (f ∙ ground arith)),
            )
      ]

  pub first_branch-NoBranch :
      (s : State) (is_loop : Bool) (loop cds : List ℕ)
      → first_branch p d s is_loop loop cds ≡ none
      → NoBranch s is_loop loop cds
  unfolding first_branch
  first_branch-NoBranch s is_loop loop [] e cd last m b = absurd (ground arith)
  first_branch-NoBranch s is_loop loop (c ∷ cds) e cd last m b =
      elim (Option-cases (immediate_branch p d s is_loop loop c)) [
        | inr (i, f) ↦ absurd (ground arith)
        | inl no_branch ↦ elim (Bool-cases (c == cd)) [
          | inr other ↦
              first_branch-NoBranch s is_loop loop cds (rw (no_branch, first_branch) at e) cd last
                (ground (arith, m)) b
          | inl same ↦
              let hit : immediate_branch p d s is_loop loop c ≡ some last =
                (immediate_branch-IsBranchOf s is_loop loop c last).1
                  (subst (λ x. IsBranchOf s is_loop loop x last) (sym ((==_iff c cd).0 same)) b) in
              absurd (ground arith)
        ]
      ]
