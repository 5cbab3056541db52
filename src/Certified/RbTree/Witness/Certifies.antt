-- ===== src/Certified/RbTree/Witness/Certifies.antt =====
-- The public witnesses of rbtree.rs against the certified root hash, and what they reveal.
use Prim.Native.Nat.Ordering.{gt}
use ic_kit.Base.{◌≡◌, ◌≢◌, arith, Returns, Returns-imp, sym, ◌∙◌, inl, inr, Option-cases}
use ic_kit.Certified.HashTree.{Sha256, HashTree, reconstruct}
use ic_kit.Certified.HashTree.Prunes.{Prunes, keep, Prunes-reconstruct}
use ic_kit.Certified.Label.{Label, AsHashTree, cmp_self}
use ic_kit.Certified.RbTree.Insert.{RbTree}
use ic_kit.Certified.RbTree.Insert.Refines.{IsValid}
use ic_kit.Certified.RbTree.Witness.{
  data_tree, witness_tree, lookup_from, root_hash, as_hash_tree, lower_bound, upper_bound,
  range_witness, nested_witness, witness, keys, key_range, value_range,
}
use ic_kit.Certified.RbTree.Witness.Shows.{
  full-reconstruct, ShowsEntry, Shows-full, ShowsEntry-data, ShowsEntry-witness,
}
use ic_kit.Certified.RbTree.Witness.Bounds.{bounds-InOrder}
use ic_kit.Certified.RbTree.Witness.Sound.{Found, Shows-lookup, range_witness-Prunes}

module _ {K V : Type 0} ⦃s : Sha256⦄ ⦃label : Label K⦄ ⦃tree : AsHashTree V⦄ where
  -- `w` is a pruning of the whole tree, and has the hash that the tree certifies.
  abbrev pub Certifies : RbTree K V → HashTree → Type 0
  Certifies t w = Prunes (as_hash_tree t) w × (reconstruct w ≡ root_hash t)

  -- The law of the trait `AsHashTree`, for the implementation of `RbTree`: the stored root hash of a
  -- valid tree is the digest of the hash tree of all its entries.
  pub root_hash-reconstruct :
      (t : RbTree K V) → IsValid t → root_hash t ≡ reconstruct (as_hash_tree t)
  unfolding root_hash as_hash_tree
  root_hash-reconstruct t h = sym (full-reconstruct t.root h.hashed)

  Certifies-Prunes :
      (t : RbTree K V) (w : HashTree) → IsValid t → Prunes (as_hash_tree t) w → Certifies t w
  Certifies-Prunes t w h p = (p, Prunes-reconstruct p ∙ sym (root_hash-reconstruct t h))

  range-Certified :
      (f : K → V → HashTree) (good : (k : K) (v : V) → ShowsEntry k v (f k v)) (first last : K)
      (t : RbTree K V)
      → label.cmp first last ≢ gt
      → IsValid t
      → Returns (Certifies t) (range_witness f (lower_bound first t) (upper_bound last t) t)
  range-Certified f good first last t o h =
      Returns-imp (Prunes (as_hash_tree t)) (Certifies t) _
        (range_witness-Prunes f good (lower_bound first t) (upper_bound last t) t
          (bounds-InOrder first last t o) h.hashed)
        λ w p. Certifies-Prunes t w h p

  module _ (f : V → HashTree) (good : (v : V) → Prunes (tree.as_hash_tree v) (f v)) where
    -- Where `f` prunes each value's own hash tree, the nested witness of any key, be it in the tree
    -- or not, is built, without a failed assertion; it is a pruning of the tree's hash tree and has the root
    -- hash.
    pub nested_witness-Certifies :
        (key : K) (t : RbTree K V) → IsValid t → Returns (Certifies t) (nested_witness f key t)
    unfolding nested_witness
    nested_witness-Certifies key t h = elim (Option-cases (lookup_from f key t.root)) [
      | inl o ↦
          let same : label.cmp key key ≢ gt = ground (arith, cmp_self key) in
          rw (o, nested_witness) (range-Certified witness_tree ShowsEntry-witness key key t same h)
      | inr (w, o) ↦
          rw (o, nested_witness)
            (Certifies-Prunes t w h (
              unfold as_hash_tree in
              (rw (o, Found) at (Shows-lookup f good key t.root h.hashed)).pruned_from))
    ]

  -- For a value's own tree in full.
  pub witness-Certifies :
      (key : K) (t : RbTree K V) → IsValid t → Returns (Certifies t) (witness key t)
  unfolding witness
  witness-Certifies key t h = nested_witness-Certifies tree.as_hash_tree (λ v. keep) key t h

  -- The enumeration of all keys of a valid tree is a pruning of the tree's hash tree and has the root hash. For a
  -- first key that is not greater than the last, so are those of the keys and of the entries of the range
  -- between them, in which no assertion fails.
  pub range-Certifies :
      (first last : K) (t : RbTree K V)
      → label.cmp first last ≢ gt
      → IsValid t
      → Certifies t (keys t)
        × Returns (Certifies t) (key_range first last t)
        × Returns (Certifies t) (value_range first last t)
  unfolding keys key_range value_range
  range-Certifies first last t o h = (
    Certifies-Prunes t _ h
        (unfold as_hash_tree in (Shows-full witness_tree ShowsEntry-witness t.root).pruned_from),
    range-Certified witness_tree ShowsEntry-witness first last t o h,
    range-Certified data_tree ShowsEntry-data first last t o h,
  )
