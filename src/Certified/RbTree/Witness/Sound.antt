-- ===== src/Certified/RbTree/Witness/Sound.antt =====
-- Every witness of rbtree.rs is a pruning of the whole tree, so it has the certified root hash.
use ic_kit.Base.{refl, Returns, Option, none, some, inl, inr, Ordering-cases, Option-cases}
use ic_kit.Certified.HashTree.{Hash, Sha256, HashTree, pruned}
use ic_kit.Certified.HashTree.Prunes.{Prunes, prune}
use ic_kit.Certified.Label.{Label, AsHashTree}
use ic_kit.Certified.RbTree.Node.{Color, Node, null, node, is_null}
use ic_kit.Certified.RbTree.Keeps.{Hashed}
use ic_kit.Certified.RbTree.Insert.{RbTree}
use ic_kit.Certified.RbTree.Witness.{
  KeyBound, bound_key, stored_hash, range_between_from, witness_range_between, range_witness,
  lookup_from, as_hash_tree,
}
use ic_kit.Certified.RbTree.Witness.Bounds.{InOrder}
use ic_kit.Certified.RbTree.Witness.Shows.{
  full-reconstruct, Shows, ShowsEntry, Shows-node, Shows-left, Shows-right, Shows-null, Shows-full,
  Shows-above, Shows-below, ShowsEntry-hash, ShowsEntry-bound, ShowsEntry-both, ShowsEntry-subtree,
}

module _ {K V : Type 0} ⦃s : Sha256⦄ ⦃label : Label K⦄ ⦃tree : AsHashTree V⦄ where
  Shows-pruned :
      (k : K) (v : V) (l r : Node K V) (c : Color) (h : Hash)
      → Hashed (node k v l r c h)
      → Shows (node k v l r c h) (pruned h)
  unfolding is_null stored_hash
  Shows-pruned k v l r c h p = record {
    pruned_from = prune (full-reconstruct (node k v l r c h) p);
    presence = refl;
  }

  module _ (f : K → V → HashTree) (good : (k : K) (v : V) → ShowsEntry k v (f k v)) where
    Shows-between :
        (lo hi : KeyBound K) (n : Node K V) → Hashed n → Shows n (range_between_from f lo hi n)
    unfolding range_between_from
    Shows-between lo hi null p = Shows-null
    Shows-between lo hi (node k v l r c h) p =
        let at = Shows-node k v l r c h in
        let below = Shows-between lo hi l p.0 in
        let above = Shows-between lo hi r p.1 in
        let left = Shows-left l p.0 in
        let right = Shows-right r p.1 in
        let at_hi = ShowsEntry-bound f good hi k v in
        let at_lo = ShowsEntry-bound f good lo k v in
        let hidden = ShowsEntry-hash k v in
        elim (Ordering-cases (label.cmp (bound_key lo) k)) [
          | inl a ↦ elim (Ordering-cases (label.cmp k (bound_key hi))) [
            | inl b ↦ rw (a, b, range_between_from) (at _ _ _ below (good k v) above)
            | inr (inl b) ↦ rw (a, b, range_between_from) (at _ _ _ below at_hi right)
            | inr (inr b) ↦ rw (a, b, range_between_from) (at _ _ _ below hidden right)
          ]
          | inr (inl a) ↦ elim (Ordering-cases (label.cmp k (bound_key hi))) [
            | inl b ↦ rw (a, b, range_between_from) (at _ _ _ left at_lo above)
            | inr (inl b) ↦
                rw (a, b, range_between_from)
                  (at _ _ _ left (ShowsEntry-both f good lo hi k v) right)
            | inr (inr b) ↦ rw (a, b, range_between_from) (at _ _ _ left at_lo above)
          ]
          | inr (inr a) ↦ elim (Ordering-cases (label.cmp k (bound_key hi))) [
            | inl b ↦ rw (a, b, range_between_from) (at _ _ _ left hidden above)
            | inr (inl b) ↦ rw (a, b, range_between_from) (at _ _ _ below at_hi right)
            | inr (inr b) ↦ rw (a, b, range_between_from) (Shows-pruned k v l r c h p)
          ]
        ]

    -- Where no assertion fails, the range witness is a pruning of the whole tree.
    pub range_witness-Prunes :
        (lo hi : Option (KeyBound K)) (t : RbTree K V)
        → InOrder lo hi
        → Hashed t.root
        → Returns (Prunes (as_hash_tree t)) (range_witness f lo hi t)
    unfolding range_witness witness_range_between as_hash_tree
    range_witness-Prunes none none t o p = (Shows-full f good t.root).pruned_from
    range_witness-Prunes (some lo) none t o p = (Shows-above f good lo t.root p).pruned_from
    range_witness-Prunes none (some hi) t o p = (Shows-below f good hi t.root p).pruned_from
    range_witness-Prunes (some lo) (some hi) t o p = rw o (Shows-between lo hi t.root p).pruned_from

  abbrev pub Found : Node K V → Option HashTree → Type 0
  Found n none = Unit
  Found n (some w) = Shows n w

  pub Shows-lookup :
      (f : V → HashTree) (good : (v : V) → Prunes (tree.as_hash_tree v) (f v)) (key : K)
      (n : Node K V)
      → Hashed n
      → Found n (lookup_from f key n)
  unfolding lookup_from
  Shows-lookup f good key null p = tt
  Shows-lookup f good key (node k v l r c h) p =
      let at = Shows-node k v l r c h in
      let left = Shows-left l p.0 in
      let right = Shows-right r p.1 in
      let hidden = ShowsEntry-hash k v in
      elim (Ordering-cases (label.cmp key k)) [
        | inl e ↦ elim (Option-cases (lookup_from f key l)) [
          | inl o ↦ rw (e, o, lookup_from) tt
          | inr (w, o) ↦
              rw (e, o, lookup_from, Found)
                (at _ _ _ (rw (o, Found) at (Shows-lookup f good key l p.0)) hidden right)
        ]
        | inr (inl e) ↦
            rw (e, lookup_from, Found) (at _ _ _ left (ShowsEntry-subtree f k v (good v)) right)
        | inr (inr e) ↦ elim (Option-cases (lookup_from f key r)) [
          | inl o ↦ rw (e, o, lookup_from) tt
          | inr (w, o) ↦
              rw (e, o, lookup_from, Found)
                (at _ _ _ left hidden (rw (o, Found) at (Shows-lookup f good key r p.1)))
        ]
      ]
