-- ===== src/Certified/RbTree/Witness/Bounds.antt =====
-- The bounds of a range of keys in rbtree.rs, in their order.
use Prim.Native.Nat.Ordering.{gt}
use mathlib.Core.Option.{or_else}
use ic_kit.Base.{◌≡◌, ◌≢◌, true, Option, some, inl, inr, Ordering-cases, Option-cases, arith}
use ic_kit.Certified.Label.{Label, cmp_self, above_of_gt}
use ic_kit.Certified.RbTree.Node.{Node, null, node}
use ic_kit.Certified.RbTree.Insert.{RbTree}
use ic_kit.Certified.RbTree.Witness.{
  KeyBound, bound_key, lower_bound_from, upper_bound_from, lower_bound, upper_bound, in_order,
}

module _ {K : Type 0} ⦃label : Label K⦄ where
  -- A bound is missing, or they are in order.
  abbrev pub InOrder : Option (KeyBound K) → Option (KeyBound K) → Type 0
  InOrder (some lo) (some hi) = in_order lo hi ≡ true
  InOrder _ _ = Unit

  le_trans : (a b c : K) → label.cmp a b ≢ gt → label.cmp b c ≢ gt → label.cmp a c ≢ gt
  le_trans a b c e f = ground (
    arith,
    label.chain a b c,
    label.same a b,
    label.same b c,
    above_of_gt a c,
    label.chain b c a,
    label.chain c a b,
    cmp_self a,
    cmp_self b,
    Ordering-cases (label.cmp a b),
    Ordering-cases (label.cmp b c),
  )

  module _ {V : Type 0} where
    lower_bound_from-le :
        (key : K) (n : Node K V) (lo : KeyBound K)
        → lower_bound_from (λ k. label.cmp k key) n ≡ some lo
        → label.cmp (bound_key lo) key ≢ gt
    unfolding lower_bound_from bound_key or_else
    lower_bound_from-le key null lo e = absurd (cc)
    lower_bound_from-le key (node k v l r _ _) lo e = ground (
      arith,
      lower_bound_from-le key l lo,
      lower_bound_from-le key r lo,
      Ordering-cases (label.cmp k key),
      Option-cases (lower_bound_from (λ k. label.cmp k key) r),
    )

    upper_bound_from-ge :
        (key : K) (n : Node K V) (hi : KeyBound K)
        → upper_bound_from (λ k. label.cmp k key) n ≡ some hi
        → label.cmp key (bound_key hi) ≢ gt
    unfolding upper_bound_from bound_key or_else
    upper_bound_from-ge key null hi e = absurd (cc)
    upper_bound_from-ge key (node k v l r _ _) hi e = ground (
      arith,
      upper_bound_from-ge key l hi,
      upper_bound_from-ge key r hi,
      label.swapped k key,
      Ordering-cases (label.cmp k key),
      Option-cases (upper_bound_from (λ k. label.cmp k key) l),
    )

    -- The lower bound of a key is at most the upper bound of one that is not less.
    pub bounds-InOrder :
        (first last : K) (t : RbTree K V)
        → label.cmp first last ≢ gt
        → InOrder (lower_bound first t) (upper_bound last t)
    unfolding lower_bound upper_bound in_order
    bounds-InOrder first last t h = elim (Option-cases (lower_bound first t)) [
      | inl n ↦ rw (n, lower_bound) tt
      | inr (lo, e) ↦ elim (Option-cases (upper_bound last t)) [
        | inl n ↦ rw (e, n, lower_bound, upper_bound) tt
        | inr (hi, f) ↦
            let a = lower_bound_from-le first t.root lo e in
            let b = upper_bound_from-ge last t.root hi f in
            let c =
              le_trans (bound_key lo) last (bound_key hi) (le_trans (bound_key lo) first last a h)
                b in
            rw (e, f, lower_bound, upper_bound)
              (ground (arith, c, Ordering-cases (label.cmp (bound_key lo) (bound_key hi))))
      ]
    ]
