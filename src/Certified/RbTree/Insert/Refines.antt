-- ===== src/Certified/RbTree/Insert/Refines.antt =====
-- `get` and `insert` of rbtree.rs against the sorted list of entries.
use ic_kit.Base.{
  ℕ, ◌+◌, ◌≡◌, refl, sym, ◌∙◌, false, Ordering-cases, inl, inr, List, ◌∷◌, ◌++◌, Option, none, some,
  ◌>>=◌, arith, length, Returns, Returns-bind,
}
use ic_kit.Certified.HashTree.{Hash, Sha256}
use ic_kit.Certified.Label.{Label, AsHashTree}
use ic_kit.Certified.Assoc.{
  Sorted, Sorted-split, find, put, find-append_lt, find-append_eq, find-append_gt, put-append_lt,
  put-append_eq, put-append_gt,
}
use ic_kit.Certified.Assoc.Laws.{put-Sorted, length-put}
use ic_kit.Certified.RbTree.Node.{
  Color, black, Node, null, node, is_null, set_color, new_node, subtree_hash, rehash, balance,
}
use ic_kit.Certified.RbTree.Keeps.{entries, Hashed, Keeps, balance-Keeps}
use ic_kit.Certified.RbTree.Insert.{RbTree, get_from, insert_from, insert}

module _ {K V : Type 0} ⦃label : Label K⦄ where
  pub get_from-find :
      (key : K) (n : Node K V) → Sorted (entries n) → get_from key n ≡ find key (entries n)
  unfolding get_from find
  get_from-find key null h = refl
  get_from-find key (node k v l r c x) h =
      let a = Sorted-split (entries l) k v (entries r) h in
      elim (Ordering-cases (label.cmp key k)) [
        | inl e ↦
            rw (e, get_from)
              (get_from-find key l a.low
                ∙ sym (find-append_lt key k v (entries r) (entries l) e a.above))
        | inr (inl e) ↦
            rw (e, get_from) (sym (find-append_eq key k v (entries r) (entries l) e a.below))
        | inr (inr e) ↦
            rw (e, get_from)
              (get_from-find key r a.high
                ∙ sym (find-append_gt key k v (entries r) (entries l) e a.below))
      ]

module _ {K V : Type 0} ⦃s : Sha256⦄ ⦃label : Label K⦄ ⦃tree : AsHashTree V⦄ where
  -- What `go` of `insert` returns at the subtree `n`.
  pub record Inserted (key : K) (value : V) (n : Node K V) (p : Node K V × Option V) : Type 0 where
    pub solid : is_null p.0 ≡ false
    pub same : entries p.0 ≡ put key value (entries n)
    pub old : p.1 ≡ find key (entries n)
    pub hashed : Hashed n → Hashed p.0

  -- The end of each branch: the node with its new children is hashed again and balanced.
  rebalanced :
      (key k : K) (value v : V) (n l r : Node K V) (c : Color) (h : Hash) (old : Option V)
      → entries l ++ (k, v) ∷ entries r ≡ put key value (entries n)
      → old ≡ find key (entries n)
      → (Hashed n → Hashed l × Hashed r)
      → Returns (Inserted key value n) (balance (rehash (node k v l r c h)) >>= λ m. some (m, old))
  unfolding rehash is_null
  rebalanced key k value v n l r c h old same found hashed =
      Returns-bind (Keeps (rehash (node k v l r c h))) (Inserted key value n)
        (balance (rehash (node k v l r c h))) _ (balance-Keeps (rehash (node k v l r c h)) refl)
        λ m km. record {
          solid = km.solid;
          same = km.same ∙ same;
          old = found;
          hashed = λ x. km.hashed ((hashed x).0, (hashed x).1, refl);
        }

  pub insert_from-Inserted :
      (key : K) (value : V) (n : Node K V)
      → Sorted (entries n)
      → Returns (Inserted key value n) (insert_from key value n)
  unfolding insert_from new_node subtree_hash is_null put find
  insert_from-Inserted key value null h = record {
    solid = refl;
    same = refl;
    old = refl;
    hashed = λ _. (tt, tt, refl);
  }
  insert_from-Inserted key value (node k v l r c x) h =
      let a = Sorted-split (entries l) k v (entries r) h in
      let n = node k v l r c x in
      elim (Ordering-cases (label.cmp key k)) [
        | inl e ↦
            rw (e, insert_from, Returns)
              (Returns-bind (Inserted key value l) (Inserted key value n) (insert_from key value l)
                _ (insert_from-Inserted key value l a.low)
                λ p ih.
                  rebalanced key k value v n p.0 r c x p.1
                    (rw (ih.same) (sym (put-append_lt key k v (entries r) value (entries l) e)))
                    (ih.old ∙ sym (find-append_lt key k v (entries r) (entries l) e a.above))
                    (λ hn. (ih.hashed hn.0, hn.1)))
        | inr (inl e) ↦
            rw (e, insert_from, Returns)
              (rebalanced key k value value n l r c x (some v)
                (sym (put-append_eq key k v (entries r) value (entries l) e a.below))
                (sym (find-append_eq key k v (entries r) (entries l) e a.below))
                (λ hn. (hn.0, hn.1)))
        | inr (inr e) ↦
            rw (e, insert_from, Returns)
              (Returns-bind (Inserted key value r) (Inserted key value n) (insert_from key value r)
                _ (insert_from-Inserted key value r a.high)
                λ p ih.
                  rebalanced key k value v n l p.0 c x p.1
                    (rw (ih.same)
                      (sym (put-append_gt key k v (entries r) value (entries l) e a.below)))
                    (ih.old ∙ sym (find-append_gt key k v (entries r) (entries l) e a.below))
                    (λ hn. (hn.0, ih.hashed hn.1)))
      ]

  -- The tree's own invariant: its keys rise, `len` counts its entries, its hashes are right.
  pub record IsValid (t : RbTree K V) : Type 0 where
    pub sorted : Sorted (entries t.root)
    pub counted : t.len ≡ length (entries t.root)
    pub hashed : Hashed t.root

  -- What `insert` returns at the tree `t`.
  pub record InsertedIn (key : K) (value : V) (t : RbTree K V) (p : RbTree K V × Option V)
      : Type 0 where
    pub valid : IsValid p.0
    pub same : entries p.0.root ≡ put key value (entries t.root)
    pub old : p.1 ≡ find key (entries t.root)

  blackened :
      (n : Node K V)
      → is_null n ≡ false
      → Returns (λ m. (entries m ≡ entries n) × (Hashed n → Hashed m)) (set_color black n)
  unfolding set_color is_null subtree_hash
  blackened null p = cc
  blackened (node k v l r c x) p = (refl, λ h. h)

  pub new_len :
      (key : K) (value : V) (m : List (K × V)) (len : ℕ) (old : Option V)
      → Sorted m
      → len ≡ length m
      → old ≡ find key m
      → (elim old [ none ↦ len + 1 | some _ ↦ len ]) ≡ length (put key value m)
  new_len key value m len old h counted found = ground (arith, length-put key value m h)

  -- On a tree that satisfies its invariant `insert` dereferences no null pointer, and it returns a
  -- tree that satisfies the invariant, whose entries are the old ones with the key's value put in,
  -- and the value that stood at the key.
  pub insert-put :
      (key : K) (value : V) (t : RbTree K V)
      → IsValid t
      → Returns (InsertedIn key value t) (insert key value t)
  unfolding insert
  insert-put key value t h =
      Returns-bind (Inserted key value t.root) (InsertedIn key value t)
        (insert_from key value t.root) _ (insert_from-Inserted key value t.root h.sorted)
        λ p ip.
          Returns-bind _ (InsertedIn key value t) (set_color black p.0) _ (blackened p.0 ip.solid)
            λ m km. record {
              valid = record {
                sorted = rw (km.0, ip.same) (put-Sorted key value (entries t.root) h.sorted);
                counted =
                    rw (km.0, ip.same)
                      (new_len key value (entries t.root) t.len p.1 h.sorted h.counted ip.old);
                hashed = km.1 (ip.hashed h.hashed);
              };
              same = km.0 ∙ ip.same;
              old = ip.old;
            }
  -- After an insertion the key reads the new value, and every other key what it read before.
