-- ===== src/Certified/RbTree/Entry/Laws.antt =====
-- The entry API of rbtree/entry.rs: `or_insert` and its kin, and what `and_modify` leaves stale.
use ic_kit.Base.{
  ◌≡◌, refl, sym, Option, none, some, arith, Returns, Returns-bind, Ordering-cases, Option-cases,
  inl, inr,
}
use ic_kit.Certified.HashTree.{Sha256}
use ic_kit.Certified.Label.{Label, AsHashTree}
use ic_kit.Certified.Assoc.{Sorted, Sorted-split, put, put-append_lt, put-append_eq, put-append_gt}
use ic_kit.Certified.RbTree.Node.{Node, null, node}
use ic_kit.Certified.RbTree.Keeps.{entries}
use ic_kit.Certified.RbTree.Insert.{RbTree, get_from, get, insert}
use ic_kit.Certified.RbTree.Insert.Refines.{IsValid, InsertedIn, insert-put}
use ic_kit.Certified.RbTree.Witness.{root_hash, stored_hash}
use ic_kit.Certified.RbTree.Entry.{
  entry, entry_tree, write_from, write_value, and_modify, vacant_insert, or_insert,
}

module _ {K V : Type 0} ⦃label : Label K⦄ where
  write_from-put :
      (key : K) (value v : V) (n : Node K V)
      → Sorted (entries n)
      → get_from key n ≡ some v
      → entries (write_from key value n) ≡ put key value (entries n)
  unfolding write_from get_from
  write_from-put key value v null h g = cc
  write_from-put key value v (node k w l r c x) h g =
      let a = Sorted-split (entries l) k w (entries r) h in
      elim (Ordering-cases (label.cmp key k)) [
        | inl e ↦
            rw (e, write_from)
              (rw (write_from-put key value v l a.low (rw (e, get_from) at g))
                (sym (put-append_lt key k w (entries r) value (entries l) e)))
        | inr (inl e) ↦
            rw (e, write_from) (sym (put-append_eq key k w (entries r) value (entries l) e a.below))
        | inr (inr e) ↦
            rw (e, write_from)
              (rw (write_from-put key value v r a.high (rw (e, get_from) at g))
                (sym (put-append_gt key k w (entries r) value (entries l) e a.below)))
      ]

module _ {K V : Type 0} ⦃s : Sha256⦄ ⦃label : Label K⦄ ⦃tree : AsHashTree V⦄ where
  write_from-stored_hash :
      (key : K) (value : V) (n : Node K V) → stored_hash (write_from key value n) ≡ stored_hash n
  unfolding write_from stored_hash
  write_from-stored_hash key value null = refl
  write_from-stored_hash key value (node k w l r c x) = ground arith

  -- At a key that the tree holds, `and_modify` changes the value, and leaves the certified root hash as it
  -- was: whatever the closure does, the hash does not follow the value.
  pub and_modify-root_hash :
      (key : K) (f : V → V) (t : RbTree K V) (v : V)
      → IsValid t
      → get key t ≡ some v
      → (entries (entry_tree (and_modify f (entry key t))).root ≡ put key (f v) (entries t.root))
        × (root_hash (entry_tree (and_modify f (entry key t))) ≡ root_hash t)
  unfolding entry and_modify entry_tree write_value root_hash get
  and_modify-root_hash key f t v h g =
      rw (g, entry)
        (write_from-put key (f v) v t.root h.sorted g, write_from-stored_hash key (f v) t.root)

  -- What `or_insert` does, by what the key reads in the tree.
  abbrev pub OrInserted : K → V → RbTree K V → RbTree K V × V → Option V → Type 0
  OrInserted key default t p (some v) = p ≡ (t, v)
  OrInserted key default t p none =
      IsValid p.0 × (entries p.0.root ≡ put key default (entries t.root)) × (p.1 ≡ default)

  -- `or_insert` on the entry of a valid tree: a key that is there is left alone and its value is
  -- returned; else the default is inserted, the tree stays valid and the default is returned.
  pub or_insert-OrInserted :
      (key : K) (default : V) (t : RbTree K V)
      → IsValid t
      → Returns (λ p. OrInserted key default t p (get key t)) (or_insert default (entry key t))
  unfolding entry or_insert vacant_insert
  or_insert-OrInserted key default t h = elim (Option-cases (get key t)) [
    | inl e ↦
        rw (e, entry, OrInserted)
          (Returns-bind (InsertedIn key default t) _ (insert key default t) _
            (insert-put key default t h) λ p ip. (ip.valid, ip.same, refl))
    | inr (v, e) ↦ rw (e, entry, OrInserted) refl
  ]
