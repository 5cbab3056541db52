-- ===== src/Certified/RbTree/Witness.antt =====
-- The hash trees that rbtree.rs builds from its nodes: the whole tree, witnesses of a key and of a
-- range of keys. `K: Borrow<Q>` asks that a borrowed key compares as the key does, so a query is a key
-- here. A function on a node that is not null takes the node's key and value. `none` is a failed
-- `debug_assert!`, which is checked where debug assertions are.
pub mod Reveals
pub mod Certifies
pub mod Sound
pub mod Shows
pub mod Bounds
pub mod Fork
use Prim.Native.Nat.Ordering.{lt, eq, gt}
use mathlib.Core.Option.{or_else}
use ic_kit.Base.{Bool, true, false, if◌then◌else◌, Option, none, some, Ordering}
use ic_kit.Certified.HashTree.{Hash, Sha256, HashTree, empty, labeled, pruned, reconstruct}
use ic_kit.Certified.Label.{Label, AsHashTree}
use ic_kit.Certified.RbTree.Node.{Node, null, node, three_way_fork, data_hash}
use ic_kit.Certified.RbTree.Insert.{RbTree}

pub data KeyBound (K : Type 0) : Type 0 where
  exact : K → KeyBound K
  neighbor : K → KeyBound K

-- `KeyBound::as_ref`.
unfoldable pub bound_key : {K : Type 0} → KeyBound K → K
bound_key (exact k) = k
bound_key (neighbor k) = k

module _ {K V : Type 0} where
  unfoldable pub left_hash_tree : Node K V → HashTree
  left_hash_tree null = empty
  left_hash_tree (node _ _ _ _ _ h) = pruned h

  unfoldable pub right_hash_tree : Node K V → HashTree
  right_hash_tree null = empty
  right_hash_tree (node _ _ _ _ _ h) = pruned h

  -- The hash that a pointer to the node shows, `Empty.reconstruct()` for the null pointer.
  unfoldable pub stored_hash : ⦃s : Sha256⦄ → Node K V → Hash
  stored_hash null = reconstruct empty
  stored_hash (node _ _ _ _ _ h) = h

module _ {K V : Type 0} where
  -- `go` of `lower_bound` and of `upper_bound`, over the comparison of a node's key with the query.
  unfoldable pub lower_bound_from : (K → Ordering) → Node K V → Option (KeyBound K)
  lower_bound_from cmp null = none
  lower_bound_from cmp (node k v l r _ _) = elim (cmp k) [
    | lt ↦ or_else (lower_bound_from cmp r) (some (neighbor k))
    | eq ↦ some (exact k)
    | gt ↦ lower_bound_from cmp l
  ]

  unfoldable pub upper_bound_from : (K → Ordering) → Node K V → Option (KeyBound K)
  upper_bound_from cmp null = none
  upper_bound_from cmp (node k v l r _ _) = elim (cmp k) [
    | lt ↦ upper_bound_from cmp r
    | eq ↦ some (exact k)
    | gt ↦ or_else (upper_bound_from cmp l) (some (neighbor k))
  ]

-- `lo.as_ref() <= hi.as_ref()`
unfoldable pub in_order : {K : Type 0} → ⦃label : Label K⦄ → KeyBound K → KeyBound K → Bool
unfolding bound_key
in_order ⦃label⦄ lo hi = elim (label.cmp (bound_key lo) (bound_key hi)) [ gt ↦ false | _ ↦ true ]

module _ {K V : Type 0} ⦃label : Label K⦄ where
  unfoldable pub lower_bound : K → RbTree K V → Option (KeyBound K)
  unfolding lower_bound_from
  lower_bound key t = lower_bound_from (λ k. label.cmp k key) t.root

  unfoldable pub upper_bound : K → RbTree K V → Option (KeyBound K)
  unfolding upper_bound_from
  upper_bound key t = upper_bound_from (λ k. label.cmp k key) t.root

module _ {K V : Type 0} ⦃s : Sha256⦄ ⦃label : Label K⦄ ⦃tree : AsHashTree V⦄ where
  unfoldable pub data_tree : K → V → HashTree
  data_tree k v = labeled (label.as_label k) (tree.as_hash_tree v)

  unfoldable pub subtree_with : (V → HashTree) → K → V → HashTree
  subtree_with f k v = labeled (label.as_label k) (f v)

  unfoldable pub witness_tree : K → V → HashTree
  witness_tree k v = labeled (label.as_label k) (pruned (tree.root_hash v))

  unfoldable pub full_witness_tree : (K → V → HashTree) → Node K V → HashTree
  full_witness_tree f null = empty
  full_witness_tree f (node k v l r _ _) =
      three_way_fork (full_witness_tree f l) (f k v) (full_witness_tree f r)

  -- The two functions of `impl AsHashTree for RbTree`.
  unfoldable pub root_hash : RbTree K V → Hash
  unfolding stored_hash
  root_hash t = stored_hash t.root

  unfoldable pub as_hash_tree : RbTree K V → HashTree
  unfolding full_witness_tree data_tree
  as_hash_tree t = full_witness_tree data_tree t.root

  -- The tree at a bound's own key: in full where the bound is exact, by its label where it is a
  -- neighbor.
  unfoldable pub bound_tree : (K → V → HashTree) → KeyBound K → K → V → HashTree
  unfolding witness_tree
  bound_tree f (exact _) k v = f k v
  bound_tree f (neighbor _) k v = witness_tree k v

  -- The match on the pair of bounds where both stand at the node's key.
  unfoldable pub both_bounds_tree : (K → V → HashTree) → KeyBound K → KeyBound K → K → V → HashTree
  unfolding witness_tree
  both_bounds_tree f (exact _) _ k v = f k v
  both_bounds_tree f (neighbor _) (exact _) k v = f k v
  both_bounds_tree f (neighbor _) (neighbor _) k v = witness_tree k v

  module _ (f : K → V → HashTree) where
    unfoldable pub range_above_from : KeyBound K → Node K V → HashTree
    unfolding bound_key left_hash_tree bound_tree data_hash full_witness_tree
    range_above_from lo null = empty
    range_above_from lo (node k v l r _ _) = elim (label.cmp k (bound_key lo)) [
      | eq ↦ three_way_fork (left_hash_tree l) (bound_tree f lo k v) (full_witness_tree f r)
      | lt ↦ three_way_fork (left_hash_tree l) (pruned (data_hash k v)) (range_above_from lo r)
      | gt ↦ three_way_fork (range_above_from lo l) (f k v) (full_witness_tree f r)
    ]

    unfoldable pub range_below_from : KeyBound K → Node K V → HashTree
    unfolding bound_key right_hash_tree bound_tree data_hash full_witness_tree
    range_below_from hi null = empty
    range_below_from hi (node k v l r _ _) = elim (label.cmp k (bound_key hi)) [
      | eq ↦ three_way_fork (full_witness_tree f l) (bound_tree f hi k v) (right_hash_tree r)
      | gt ↦ three_way_fork (range_below_from hi l) (pruned (data_hash k v)) (right_hash_tree r)
      | lt ↦ three_way_fork (full_witness_tree f l) (f k v) (range_below_from hi r)
    ]

    -- The arms of the match on the two comparisons, in their order.
    unfoldable pub range_between_from : KeyBound K → KeyBound K → Node K V → HashTree
    unfolding bound_key left_hash_tree right_hash_tree bound_tree both_bounds_tree data_hash
    range_between_from lo hi null = empty
    range_between_from lo hi (node k v l r _ h) =
        let below = range_between_from lo hi l in
        let above = range_between_from lo hi r in
        elim (label.cmp (bound_key lo) k) [
          | lt ↦ elim (label.cmp k (bound_key hi)) [
            | lt ↦ three_way_fork below (f k v) above
            | eq ↦ three_way_fork below (bound_tree f hi k v) (right_hash_tree r)
            | gt ↦ three_way_fork below (pruned (data_hash k v)) (right_hash_tree r)
          ]
          | eq ↦ elim (label.cmp k (bound_key hi)) [
            | eq ↦
                three_way_fork (left_hash_tree l) (both_bounds_tree f lo hi k v) (right_hash_tree r)
            | _ ↦ three_way_fork (left_hash_tree l) (bound_tree f lo k v) above
          ]
          | gt ↦ elim (label.cmp k (bound_key hi)) [
            | eq ↦ three_way_fork below (bound_tree f hi k v) (right_hash_tree r)
            | lt ↦ three_way_fork (left_hash_tree l) (pruned (data_hash k v)) above
            | gt ↦ pruned h
          ]
        ]

    -- `witness_range_between`, with its assertion.
    unfoldable pub witness_range_between : KeyBound K → KeyBound K → RbTree K V → Option HashTree
    unfolding in_order range_between_from
    witness_range_between lo hi t =
        if in_order lo hi then some (range_between_from lo hi t.root) else none

    -- `range_witness`, by the two bounds.
    unfoldable pub range_witness :
        Option (KeyBound K) → Option (KeyBound K) → RbTree K V → Option HashTree
    unfolding range_above_from range_below_from witness_range_between
    range_witness none none t = some (full_witness_tree f t.root)
    range_witness (some l) none t = some (range_above_from l t.root)
    range_witness none (some r) t = some (range_below_from r t.root)
    range_witness (some l) (some r) t = witness_range_between l r t

  -- `go` of `lookup_and_build_witness`.
  unfoldable pub lookup_from : (V → HashTree) → K → Node K V → Option HashTree
  unfolding left_hash_tree right_hash_tree subtree_with data_hash
  lookup_from f key null = none
  lookup_from f key (node k v l r _ _) = elim (label.cmp key k) [
    | eq ↦ some (three_way_fork (left_hash_tree l) (subtree_with f k v) (right_hash_tree r))
    | lt ↦ elim (lookup_from f key l) [
      | none ↦ none
      | some sub ↦ some (three_way_fork sub (pruned (data_hash k v)) (right_hash_tree r))
    ]
    | gt ↦ elim (lookup_from f key r) [
      | none ↦ none
      | some sub ↦ some (three_way_fork (left_hash_tree l) (pruned (data_hash k v)) sub)
    ]
  ]

  unfoldable pub nested_witness : (V → HashTree) → K → RbTree K V → Option HashTree
  unfolding lookup_from range_witness lower_bound upper_bound witness_tree
  nested_witness f key t = elim (lookup_from f key t.root) [
    | some w ↦ some w
    | none ↦ range_witness witness_tree (lower_bound key t) (upper_bound key t) t
  ]

  unfoldable pub witness : K → RbTree K V → Option HashTree
  unfolding nested_witness
  witness key t = nested_witness tree.as_hash_tree key t

  unfoldable pub keys : RbTree K V → HashTree
  unfolding full_witness_tree witness_tree
  keys t = full_witness_tree witness_tree t.root

  unfoldable pub key_range : K → K → RbTree K V → Option HashTree
  unfolding range_witness lower_bound upper_bound witness_tree
  key_range first last t = range_witness witness_tree (lower_bound first t) (upper_bound last t) t

  unfoldable pub value_range : K → K → RbTree K V → Option HashTree
  unfolding range_witness lower_bound upper_bound data_tree
  value_range first last t = range_witness data_tree (lower_bound first t) (upper_bound last t) t
