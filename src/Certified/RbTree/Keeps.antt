-- ===== src/Certified/RbTree/Keeps.antt =====
-- What the rotations and `balance` of rbtree.rs keep: the entries in their order, and the hashes.
use ic_kit.Base.{
  false, ◌≡◌, refl, List, [], ◌∷◌, ◌++◌, append_assoc, Returns, Returns-imp, Returns-bind, ◌∙◌, sym,
  Bool-cases, inl, inr,
}
use ic_kit.Certified.HashTree.{Hash, Sha256}
use ic_kit.Certified.Label.{Label, AsHashTree}
use ic_kit.Certified.RbTree.Node.{
  Color, red, Node, null, node, left, right, left_left_red, node_hash, is_null, is_red, flip_colors,
  subtree_hash, rehash, rotate_left, rotate_right, lean_left, lift_left, split_reds, balance,
}

module _ {K V : Type 0} where
  -- The entries of a subtree, from left to right.
  abbrev pub entries : Node K V → List (K × V)
  entries null = []
  entries (node k v l r _ _) = entries l ++ (k, v) ∷ entries r

module _ {K V : Type 0} ⦃s : Sha256⦄ ⦃label : Label K⦄ ⦃tree : AsHashTree V⦄ where
  -- Every stored hash is the one that `Node::subtree_hash` computes.
  abbrev pub Hashed : Node K V → Type 0
  Hashed null = Unit
  Hashed (node k v l r c h) = Hashed l × Hashed r × (h ≡ subtree_hash (node k v l r c h))

  -- `m` replaces `n`: it is no null pointer, holds the same entries, and its hashes are right if
  -- those of `n` are.
  pub record Keeps (n m : Node K V) : Type 0 where
    pub solid : is_null m ≡ false
    pub same : entries m ≡ entries n
    pub hashed : Hashed n → Hashed m

  pub rehash-Hashed :
      (k : K) (v : V) (l r : Node K V) (c : Color) (h : Hash)
      → Hashed l
      → Hashed r
      → Hashed (rehash (node k v l r c h))
  unfolding rehash
  rehash-Hashed k v l r c h hl hr = (hl, hr, refl)

  pub Keeps-refl : (n : Node K V) → is_null n ≡ false → Keeps n n
  Keeps-refl n solid = record { solid = solid; same = refl; hashed = λ h. h }

  pub Keeps-trans : (a b c : Node K V) → Keeps a b → Keeps b c → Keeps a c
  Keeps-trans a b c p q = record {
    solid = q.solid;
    same = q.same ∙ p.same;
    hashed = λ h. q.hashed (p.hashed h);
  }

  rotate_left-Keeps :
      (k xk : K) (v xv : V) (l xl xr : Node K V) (c : Color) (h xh : Hash)
      → Returns
          (Keeps (node k v l (node xk xv xl xr red xh) c h))
          (rotate_left (node k v l (node xk xv xl xr red xh) c h))
  unfolding rotate_left rehash is_null
  rotate_left-Keeps k xk v xv l xl xr c h xh = record {
    solid = refl;
    same = append_assoc (entries l) _ _;
    hashed = λ (hl, hx, _). ((hl, hx.0, refl), hx.1, refl);
  }

  rotate_right-Keeps :
      (k xk : K) (v xv : V) (xl xr r : Node K V) (c : Color) (h xh : Hash)
      → Returns
          (Keeps (node k v (node xk xv xl xr red xh) r c h))
          (rotate_right (node k v (node xk xv xl xr red xh) r c h))
  unfolding rotate_right rehash is_null
  rotate_right-Keeps k xk v xv xl xr r c h xh = record {
    solid = refl;
    same = sym (append_assoc (entries xl) _ _);
    hashed = λ (hx, hr, _). (hx.0, (hx.1, hr, refl), refl);
  }

  lean_left-Keeps : (n : Node K V) → is_null n ≡ false → Returns (Keeps n) (lean_left n)
  unfolding lean_left left right is_red is_null
  lean_left-Keeps null p = cc
  lean_left-Keeps (node k v l (node xk xv xl xr red xh) c h) p = elim (Bool-cases (is_red l)) [
    | inl e ↦ rw e (Keeps-refl _ p)
    | inr e ↦ rw e (rotate_left-Keeps k xk v xv l xl xr c h xh)
  ]
  lean_left-Keeps (node k v l _ c h) p = Keeps-refl _ p

  lift_left-Keeps : (n : Node K V) → is_null n ≡ false → Returns (Keeps n) (lift_left n)
  unfolding lift_left left_left_red left is_red is_null
  lift_left-Keeps null p = cc
  lift_left-Keeps (node k v (node xk xv xl xr red xh) r c h) p = elim (Bool-cases (is_red xl)) [
    | inl e ↦ rw e (rotate_right-Keeps k xk v xv xl xr r c h xh)
    | inr e ↦ rw e (Keeps-refl _ p)
  ]
  lift_left-Keeps (node k v _ r c h) p = Keeps-refl _ p

  split_reds-Keeps : (n : Node K V) → is_null n ≡ false → Returns (Keeps n) (split_reds n)
  unfolding split_reds left right is_red is_null flip_colors subtree_hash node_hash
  split_reds-Keeps null p = cc
  split_reds-Keeps (node k v (node lk lv ll lr red lh) (node rk rv rl rr red rh) c h) p = record {
    solid = refl;
    same = refl;
    hashed = λ x. x;
  }
  split_reds-Keeps (node k v _ _ c h) p = Keeps-refl _ p

  -- On any node, the tree's shape and colors whatever they are, `balance` dereferences no null
  -- pointer, and no assertion of a rotation fails.
  pub balance-Keeps : (n : Node K V) → is_null n ≡ false → Returns (Keeps n) (balance n)
  unfolding balance
  balance-Keeps n p = Returns-bind (Keeps n) (Keeps n) (lean_left n) _ (lean_left-Keeps n p) λ a ka.
      Returns-bind (Keeps a) (Keeps n) (lift_left a) _ (lift_left-Keeps a ka.solid) λ b kb.
        Returns-imp (Keeps b) (Keeps n) (split_reds b) (split_reds-Keeps b kb.solid)
          λ m km. Keeps-trans n b m (Keeps-trans n a b ka kb) km
