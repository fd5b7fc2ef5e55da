-- ===== src/BasicBlock/Labels.antt =====
-- Edges that differ in their labels alone.
use cape_implementation.Prelude.{ℕ, ◌≡◌, ap, ◌∙◌, true, false, arith, ◌==◌, ==_iff, elem}
use cape_implementation.BasicBlock.{
  has_edge, Store, erase_edge, erase_block, set_prev, remove_successor,
}
use cape_implementation.BasicBlock.Edges.{
  edge, comes, has_edge-erase_edge, elem-erase_block, next-set_next, prev-set_next, prev-set_prev,
  next-set_prev,
}
use cape_implementation.BasicBlock.Added.{chosen}

-- After removeSuccessor of one of two edges to a block, which differ in the label, the other edge is
-- there, but the block has lost its predecessor.
pub remove_successor_loses_predecessor :
    (a t l k : ℕ) (st : Store)
    → (l == k) ≡ false
    → edge st a t k ≡ true
    → (edge (remove_successor a (t, l) st) a t k ≡ true)
      × (comes (remove_successor a (t, l) st) t a ≡ false)
unfolding remove_successor
remove_successor_loses_predecessor a t l k st other e =
    let s = set_prev t (erase_block a (st t).prev) st in
    let left =
      ap (has_edge (t, k)) (next-set_next a a (erase_edge (t, l) (s a).next) s)
      ∙ chosen (has_edge (t, k)) (a == a) (erase_edge (t, l) (s a).next) (s a).next in
    let before : has_edge (t, k) (s a).next ≡ edge st a t k =
      ap (has_edge (t, k)) (next-set_prev t a (erase_block a (st t).prev) st) in
    let pred =
      ap (elem a) (
        prev-set_next a t (erase_edge (t, l) (s a).next) s
        ∙ prev-set_prev t t (erase_block a (st t).prev) st)
      ∙ chosen (elem a) (t == t) (erase_block a (st t).prev) (st t).prev in
    (
      ground (arith, left, before, has_edge-erase_edge t l t k (s a).next, ==_iff a a, other, e),
      ground (arith, pred, elem-erase_block a a (st t).prev, ==_iff t t, ==_iff a a),
    )
