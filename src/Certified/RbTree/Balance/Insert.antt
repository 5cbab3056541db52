-- ===== src/Certified/RbTree/Balance/Insert.antt =====
-- `insert` of rbtree.rs keeps the tree a left-leaning red-black tree.
use ic_kit.Base.{◌≡◌, refl, false, Option, arith, Returns, Returns-bind, inl, inr, Ordering-cases}
use ic_kit.Certified.HashTree.{Hash, Sha256}
use ic_kit.Certified.Label.{Label, AsHashTree}
use ic_kit.Certified.RbTree.Node.{
  Color, black, Node, null, node, left, right, is_red, left_left_red, rehash, lean_left, lift_left,
  split_reds, balance, set_color, new_node,
}
use ic_kit.Certified.RbTree.Insert.{RbTree, insert_from, insert}
use ic_kit.Certified.RbTree.Balance.{Uniform, Leaning, Grown, balance_left, balance_right}

module _ {K V : Type 0} ⦃s : Sha256⦄ ⦃label : Label K⦄ ⦃tree : AsHashTree V⦄ where
  balance_same :
      (k : K) (v : V) (l r : Node K V) (c : Color) (h : Hash)
      → Uniform (node k v l r c h)
      → Leaning (node k v l r c h)
      → Returns (Grown (node k v l r c h)) (balance (rehash (node k v l r c h)))
  unfolding balance lean_left lift_left split_reds left right is_red left_left_red rehash
  balance_same k v null r c h u p = ground arith
  balance_same k v (node lk lv ll lr lc lh) r c h u p =
      balance_left k v (node lk lv ll lr lc lh) (node lk lv ll lr lc lh) r c h u p (record {
        height = refl;
        uniform = u.0;
        nearly = (p.0.0, p.0.1, p.0.2);
        leaning = λ _. p.0;
      })

  pub insert_from-Grown :
      (key : K) (value : V) (n : Node K V)
      → Uniform n
      → Leaning n
      → Returns (λ (p : Node K V × Option V). Grown n p.0) (insert_from key value n)
  unfolding insert_from is_red
  insert_from-Grown key value null u p =
      unfold new_node is_red in
      record {
        height = refl;
        uniform = (tt, tt, refl);
        nearly = (tt, tt, refl);
        leaning = λ _. (tt, tt, refl, refl);
      }
  insert_from-Grown key value (node k v l r c h) u p = elim (Ordering-cases (label.cmp key k)) [
    | inl e ↦
        rw (e, insert_from, Returns)
          (Returns-bind (λ q. Grown l q.0) _ (insert_from key value l) _
            (insert_from-Grown key value l u.0 p.0)
            λ q g.
              Returns-bind (Grown (node k v l r c h)) _ _ _ (balance_left k v l q.0 r c h u p g)
                λ m gm. gm)
    | inr (inl e) ↦
        rw (e, insert_from, Returns)
          (Returns-bind (Grown (node k value l r c h)) _ _ _ (balance_same k value l r c h u p)
            λ m gm. record {
              height = gm.height;
              uniform = gm.uniform;
              nearly = gm.nearly;
              leaning = gm.leaning;
            })
    | inr (inr e) ↦
        rw (e, insert_from, Returns)
          (Returns-bind (λ q. Grown r q.0) _ (insert_from key value r) _
            (insert_from-Grown key value r u.1 p.1)
            λ q g.
              Returns-bind (Grown (node k v l r c h)) _ _ _ (balance_right k v l r q.0 c h u p g)
                λ m gm. gm)
  ]

  -- A left-leaning red-black tree: its root is black, every path from a node passes as many black
  -- nodes, a red node has no red child, and no right child is red.
  pub record IsBalanced (t : RbTree K V) : Type 0 where
    pub uniform : Uniform t.root
    pub leaning : Leaning t.root
    pub black_root : is_red t.root ≡ false

  blackened :
      (n m : Node K V)
      → Grown n m
      → Returns (λ b. Uniform b × Leaning b × (is_red b ≡ false)) (set_color black m)
  unfolding set_color is_red
  blackened n null g = absurd g.nearly
  blackened n (node k v l r c h) g = ground arith

  -- `insert` into a left-leaning red-black tree, whatever the hashes and the order of its keys,
  -- dereferences no null pointer and returns a left-leaning red-black tree.
  pub insert-IsBalanced :
      (key : K) (value : V) (t : RbTree K V)
      → IsBalanced t
      → Returns (λ (p : RbTree K V × Option V). IsBalanced p.0) (insert key value t)
  unfolding insert
  insert-IsBalanced key value t b =
      Returns-bind (λ q. Grown t.root q.0) _ (insert_from key value t.root) _
        (insert_from-Grown key value t.root b.uniform b.leaning)
        λ q g.
          Returns-bind _ _ (set_color black q.0) _ (blackened t.root q.0 g)
            λ m c. record { uniform = c.0; leaning = c.1; black_root = c.2 }
