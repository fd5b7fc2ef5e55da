-- ===== src/NodesWalk/Skips.antt =====
-- The edges that the walk never leaves out.
use cape_implementation.Prelude.{
  ℕ, ◌≡◌, refl, Bool-cases, inl, inr, Bool, true, false, ◌||◌, ◌&&◌, not, arith, Option, none, some,
}
use cape_implementation.NodesWalk.{
  Graph, Kind, EdgeName, Walking, is_call, is_function, is_cd, is_dd, is_use, skips_call,
  skips_target, is_unmatched, entry_parent, skips, note_parent, call_key, function_key, return_key,
  store_key, other_key,
}
use cape_implementation.NodesWalk.Follows.{is_plain}

module _ (g : Graph) where
  pub note_parent_keeps :
      (rt : EdgeName) (n cur : ℕ) (s : Walking)
      → (note_parent g rt n cur s).pending ≡ s.pending
        × (note_parent g rt n cur s).visited ≡ s.visited
  unfolding note_parent
  note_parent_keeps rt n cur s =
      elim (Bool-cases (is_call (g.kind n) && is_cd rt && is_function (g.kind cur))) [
        | inl yes_parent ↦ rw yes_parent (refl, refl)
        | inr no_parent ↦ rw no_parent (refl, refl)
      ]

  -- An edge that is never skipped.
  abbrev pub is_sure : EdgeName → ℕ → Bool
  is_sure rt cur = not (is_dd rt || is_use rt) || is_plain g cur

  is_unmatched-call :
      (p : Option ℕ) (cur : ℕ) → is_unmatched g p cur ≡ true → is_call (g.kind cur) ≡ true
  unfolding is_unmatched
  is_unmatched-call none cur e = absurd (ground arith)
  is_unmatched-call (some q) cur e = ground (arith, e)

  skips_call-is_sure :
      (rt : EdgeName) (k : Kind) (n cur : ℕ) (s : Walking)
      → skips_call g rt k n cur s ≡ true
      → is_sure rt cur ≡ false
  unfolding skips_call
  skips_call-is_sure rt function_key n cur s e =
      ground (arith, e, is_unmatched-call (s.parent n) cur)
  skips_call-is_sure rt return_key n cur s e =
      ground (arith, e, is_unmatched-call (entry_parent (g.entry_of n) s) cur)
  skips_call-is_sure rt call_key n cur s e = absurd (ground arith)
  skips_call-is_sure rt store_key n cur s e = absurd (ground arith)
  skips_call-is_sure rt other_key n cur s e = absurd (ground arith)

  skips_target-is_sure :
      (rt : EdgeName) (k : Kind) (cur : ℕ) → skips_target g rt k cur ≡ true → is_sure rt cur ≡ false
  unfolding skips_target
  skips_target-is_sure rt k cur e = ground (arith, e)

  pub skips-is_sure :
      (rt : EdgeName) (n cur : ℕ) (s : Walking) → is_sure rt cur ≡ true → skips g rt n cur s ≡ false
  unfolding skips
  skips-is_sure rt n cur s e =
      ground
        (arith, skips_call-is_sure rt (g.kind n) n cur s, skips_target-is_sure rt (g.kind n) cur)
