-- ===== src/Certified/RbTree/Witness/Shows.antt =====
-- Each hash tree that rbtree.rs builds at a node is a pruning of the full tree at that node.
use ic_kit.Base.{◌≡◌, refl, sym, ap, ap₂, ◌∙◌, false, inl, inr, Ordering-cases}
use ic_kit.Certified.HashTree.{
  Hash, Sha256, HashTree, empty, pruned, fork_hash, labeled_hash, reconstruct,
}
use ic_kit.Certified.HashTree.Prunes.{Prunes, keep, prune, inside, is_empty, join_by}
use ic_kit.Certified.Label.{Label, AsHashTree}
use ic_kit.Certified.RbTree.Node.{
  Color, Node, null, node, is_null, three_way_fork, data_hash, node_hash, subtree_hash,
}
use ic_kit.Certified.RbTree.Keeps.{Hashed}
use ic_kit.Certified.RbTree.Witness.{
  KeyBound, exact, neighbor, bound_key, left_hash_tree, right_hash_tree, stored_hash, data_tree,
  subtree_with, witness_tree, full_witness_tree, bound_tree, both_bounds_tree, range_above_from,
  range_below_from,
}
use ic_kit.Certified.RbTree.Witness.Fork.{
  three_way_fork-join, three_way_fork-Prunes, three_way_fork-is_empty,
}

module _ {K V : Type 0} ⦃s : Sha256⦄ ⦃label : Label K⦄ ⦃tree : AsHashTree V⦄ where
  abbrev pub full : Node K V → HashTree
  full n = full_witness_tree data_tree n

  pub data_tree-reconstruct : (k : K) (v : V) → reconstruct (data_tree k v) ≡ data_hash k v
  unfolding data_tree reconstruct data_hash
  data_tree-reconstruct k v = ap (labeled_hash (label.as_label k)) (sym (tree.root_hash_lem v))

  full-is_empty : (n : Node K V) → is_empty (full n) ≡ is_null n
  unfolding full_witness_tree is_null data_tree
  full-is_empty null = refl
  full-is_empty (node k v l r c h) = three_way_fork-is_empty (full l) (data_tree k v) (full r) refl

  join-node_hash :
      (k : K) (v : V) (l r : Node K V)
      → reconstruct (full l) ≡ stored_hash l
      → reconstruct (full r) ≡ stored_hash r
      → reconstruct (join_by (is_null l) (is_null r) (full l) (data_tree k v) (full r))
        ≡ node_hash k v l r
  unfolding reconstruct is_null stored_hash node_hash
  join-node_hash k v null null p q = data_tree-reconstruct k v
  join-node_hash k v null (node _ _ _ _ _ _) p q = ap₂ fork_hash (data_tree-reconstruct k v) q
  join-node_hash k v (node _ _ _ _ _ _) null p q = ap₂ fork_hash p (data_tree-reconstruct k v)
  join-node_hash k v (node _ _ _ _ _ _) (node _ _ _ _ _ _) p q =
      ap₂ fork_hash p (ap₂ fork_hash (data_tree-reconstruct k v) q)

  -- The digest of the full tree is the stored hash, where the stored hashes are right.
  pub full-reconstruct : (n : Node K V) → Hashed n → reconstruct (full n) ≡ stored_hash n
  unfolding full_witness_tree stored_hash subtree_hash
  full-reconstruct null p = refl
  full-reconstruct (node k v l r c h) p =
      rw (three_way_fork-join (full l) (data_tree k v) (full r) (unfold data_tree in refl)) (
        rw (full-is_empty l, full-is_empty r)
          (join-node_hash k v l r (full-reconstruct l p.0) (full-reconstruct r p.1) ∙ sym p.2))

  -- `w` stands for the full tree at `n`, with parts of it pruned.
  pub record Shows (n : Node K V) (w : HashTree) : Type 0 where
    pub pruned_from : Prunes (full n) w
    pub presence : is_empty w ≡ is_null n

  pub Shows-left : (n : Node K V) → Hashed n → Shows n (left_hash_tree n)
  unfolding left_hash_tree full_witness_tree stored_hash is_null
  Shows-left null p = record { pruned_from = keep; presence = refl }
  Shows-left (node k v l r c h) p = record {
    pruned_from = prune (full-reconstruct (node k v l r c h) p);
    presence = refl;
  }

  pub Shows-right : (n : Node K V) → Hashed n → Shows n (right_hash_tree n)
  unfolding right_hash_tree full_witness_tree stored_hash is_null
  Shows-right null p = record { pruned_from = keep; presence = refl }
  Shows-right (node k v l r c h) p = record {
    pruned_from = prune (full-reconstruct (node k v l r c h) p);
    presence = refl;
  }

  -- A tree `m` that may stand for the node itself.
  pub record ShowsEntry (k : K) (v : V) (m : HashTree) : Type 0 where
    pub pruned_from : Prunes (data_tree k v) m
    pub presence : is_empty m ≡ false

  pub Shows-node :
      (k : K) (v : V) (l r : Node K V) (c : Color) (h : Hash) (wl m wr : HashTree)
      → Shows l wl
      → ShowsEntry k v m
      → Shows r wr
      → Shows (node k v l r c h) (three_way_fork wl m wr)
  unfolding full_witness_tree is_null
  Shows-node k v l r c h wl m wr sl sm sr = record {
    pruned_from =
        three_way_fork-Prunes (full l) wl (data_tree k v) m (full r) wr
          (sl.presence ∙ sym (full-is_empty l)) (sr.presence ∙ sym (full-is_empty r)) sm.presence
          (unfold data_tree in refl) sl.pruned_from sm.pruned_from sr.pruned_from;
    presence = three_way_fork-is_empty wl m wr sm.presence;
  }

  pub ShowsEntry-hash : (k : K) (v : V) → ShowsEntry k v (pruned (data_hash k v))
  ShowsEntry-hash k v = record { pruned_from = prune (data_tree-reconstruct k v); presence = refl }

  pub ShowsEntry-data : (k : K) (v : V) → ShowsEntry k v (data_tree k v)
  ShowsEntry-data k v = record { pruned_from = keep; presence = unfold data_tree in refl }

  pub ShowsEntry-witness : (k : K) (v : V) → ShowsEntry k v (witness_tree k v)
  unfolding data_tree witness_tree
  ShowsEntry-witness k v = record {
    pruned_from = inside (label.as_label k) (prune (sym (tree.root_hash_lem v)));
    presence = refl;
  }

  -- What `f` shows of a value must be a pruning of the value's own tree.
  pub ShowsEntry-subtree :
      (f : V → HashTree) (k : K) (v : V)
      → Prunes (tree.as_hash_tree v) (f v)
      → ShowsEntry k v (subtree_with f k v)
  unfolding data_tree subtree_with
  ShowsEntry-subtree f k v p = record { pruned_from = inside (label.as_label k) p; presence = refl }

  pub Shows-null : Shows null empty
  unfolding full_witness_tree is_null
  Shows-null = record { pruned_from = keep; presence = refl }

  module _ (f : K → V → HashTree) (good : (k : K) (v : V) → ShowsEntry k v (f k v)) where
    pub ShowsEntry-bound : (b : KeyBound K) (k : K) (v : V) → ShowsEntry k v (bound_tree f b k v)
    unfolding bound_tree
    ShowsEntry-bound (exact _) k v = good k v
    ShowsEntry-bound (neighbor _) k v = ShowsEntry-witness k v

    pub ShowsEntry-both :
        (lo hi : KeyBound K) (k : K) (v : V) → ShowsEntry k v (both_bounds_tree f lo hi k v)
    unfolding both_bounds_tree
    ShowsEntry-both (exact _) hi k v = good k v
    ShowsEntry-both (neighbor _) (exact _) k v = good k v
    ShowsEntry-both (neighbor _) (neighbor _) k v = ShowsEntry-witness k v

    pub Shows-full : (n : Node K V) → Shows n (full_witness_tree f n)
    unfolding full_witness_tree
    Shows-full null = Shows-null
    Shows-full (node k v l r c h) =
        Shows-node k v l r c h _ _ _ (Shows-full l) (good k v) (Shows-full r)

    pub Shows-above :
        (lo : KeyBound K) (n : Node K V) → Hashed n → Shows n (range_above_from f lo n)
    unfolding range_above_from
    Shows-above lo null p = Shows-null
    Shows-above lo (node k v l r c h) p =
        let at = Shows-node k v l r c h in
        elim (Ordering-cases (label.cmp k (bound_key lo))) [
          | inl e ↦
              rw (e, range_above_from)
                (at _ _ _ (Shows-left l p.0) (ShowsEntry-hash k v) (Shows-above lo r p.1))
          | inr (inl e) ↦
              rw (e, range_above_from)
                (at _ _ _ (Shows-left l p.0) (ShowsEntry-bound lo k v) (Shows-full r))
          | inr (inr e) ↦
              rw (e, range_above_from) (at _ _ _ (Shows-above lo l p.0) (good k v) (Shows-full r))
        ]

    pub Shows-below :
        (hi : KeyBound K) (n : Node K V) → Hashed n → Shows n (range_below_from f hi n)
    unfolding range_below_from
    Shows-below hi null p = Shows-null
    Shows-below hi (node k v l r c h) p =
        let at = Shows-node k v l r c h in
        elim (Ordering-cases (label.cmp k (bound_key hi))) [
          | inl e ↦
              rw (e, range_below_from) (at _ _ _ (Shows-full l) (good k v) (Shows-below hi r p.1))
          | inr (inl e) ↦
              rw (e, range_below_from)
                (at _ _ _ (Shows-full l) (ShowsEntry-bound hi k v) (Shows-right r p.1))
          | inr (inr e) ↦
              rw (e, range_below_from)
                (at _ _ _ (Shows-below hi l p.0) (ShowsEntry-hash k v) (Shows-right r p.1))
        ]
