-- ===== src/Certified/RbTree/Balance.antt =====
-- The shape of the trees of rbtree.rs: left-leaning red-black trees. Every path from a node passes as
-- many black nodes, a red node has no red child, and no right child is red.
pub mod Insert
use ic_kit.Base.{
  ℕ, ◌+◌, ◌≡◌, refl, sym, ap, ◌∙◌, Bool, true, false, not, ◌&&◌, Option, none, some, ◌>>=◌, arith,
  Returns,
}
use ic_kit.Certified.HashTree.{Hash, Sha256}
use ic_kit.Certified.Label.{Label, AsHashTree}
use ic_kit.Certified.RbTree.Node.{
  Color, red, black, flip, Node, null, node, left, right, is_null, is_red, left_left_red,
  flip_colors, rehash, rotate_left, rotate_right, lean_left, lift_left, split_reds, balance,
  set_color, new_node,
}
use ic_kit.Certified.RbTree.Insert.{RbTree, insert_from, insert}

abbrev pub blacks : Color → ℕ
blacks red = 0
blacks black = 1

-- What a node's color allows its left child.
abbrev pub left_allowed : Color → Bool → Bool
left_allowed red b = not b
left_allowed black b = true

module _ {K V : Type 0} where
  -- The black nodes on the path that goes left.
  abbrev pub black_height : Node K V → ℕ
  black_height null = 0
  black_height (node k v l r c h) = black_height l + blacks c

  abbrev pub Uniform : Node K V → Type 0
  Uniform null = Unit
  Uniform (node k v l r c h) = Uniform l × Uniform r × (black_height l ≡ black_height r)

  abbrev pub Leaning : Node K V → Type 0
  Leaning null = Unit
  Leaning (node k v l r c h) =
      Leaning l × Leaning r × (is_red r ≡ false) × (left_allowed c (is_red l) ≡ true)

  -- A node that may be red and have a red left child.
  abbrev pub Nearly : Node K V → Type 0
  Nearly null = ⊥
  Nearly (node k v l r c h) = Leaning l × Leaning r × (is_red r ≡ false)

  -- `m` replaces `n` below a node that has still to be balanced.
  pub record Grown (n m : Node K V) : Type 0 where
    pub height : black_height m ≡ black_height n
    pub uniform : Uniform m
    pub nearly : Nearly m
    pub leaning : is_red n ≡ false → Leaning m

module _ {K V : Type 0} ⦃s : Sha256⦄ ⦃label : Label K⦄ ⦃tree : AsHashTree V⦄ where
  pub balance_left :
      (k : K) (v : V) (l l' r : Node K V) (c : Color) (h : Hash)
      → Uniform (node k v l r c h)
      → Leaning (node k v l r c h)
      → Grown l l'
      → Returns (Grown (node k v l r c h)) (balance (rehash (node k v l' r c h)))
  unfolding balance lean_left lift_left split_reds left right is_red left_left_red rotate_left
      rotate_right flip_colors flip rehash
  balance_left k v l null r c h u p g = absurd g.nearly
  balance_left k v l (node lk lv ll lr black lh) r c h u p g = ground arith
  balance_left k v l (node lk lv null lr red lh) r c h u p g = ground arith
  balance_left k v l (node lk lv (node xk xv xl xr black xh) lr red lh) r c h u p g = ground arith
  balance_left k v l (node lk lv (node xk xv xl xr red xh) null red lh) null black h u p g =
      ground arith
  balance_left k v l (node lk lv (node xk xv xl xr red xh) (node yk yv yl yr black yh) red lh) null
        black h u p g =
      ground arith
  balance_left k v l (node lk lv (node xk xv xl xr red xh) (node yk yv yl yr red yh) red lh) null
        black h u p g =
      ground arith
  balance_left k v l (node lk lv (node xk xv xl xr red xh) null red lh) (node rk rv rl rr black rh)
        black h u p g =
      ground arith
  balance_left k v l (node lk lv (node xk xv xl xr red xh) (node yk yv yl yr black yh) red lh)
        (node rk rv rl rr black rh) black h u p g =
      ground arith
  balance_left k v l (node lk lv (node xk xv xl xr red xh) (node yk yv yl yr red yh) red lh)
        (node rk rv rl rr black rh) black h u p g =
      ground arith
  balance_left k v l (node lk lv (node xk xv xl xr red xh) null red lh) (node rk rv rl rr red rh)
        black h u p g =
      ground arith
  balance_left k v l (node lk lv (node xk xv xl xr red xh) (node yk yv yl yr black yh) red lh)
        (node rk rv rl rr red rh) black h u p g =
      ground arith
  balance_left k v l (node lk lv (node xk xv xl xr red xh) (node yk yv yl yr red yh) red lh)
        (node rk rv rl rr red rh) black h u p g =
      ground arith
  balance_left k v l (node lk lv (node xk xv xl xr red xh) lr red lh) r red h u p g = ground arith

  -- A red right child beside a left child that is not red is rotated up, and that is all.
  balance-lean :
      (k rk : K) (v rv : V) (l rl rr : Node K V) (c : Color) (h rh : Hash)
      → is_red l ≡ false
      → is_red rr ≡ false
      → balance (rehash (node k v l (node rk rv rl rr red rh) c h))
        ≡ some (rehash (node rk rv (rehash (node k v l rl red h)) rr c rh))
  unfolding balance lean_left lift_left split_reds left right is_red left_left_red rotate_left
      rehash
  balance-lean k rk v rv null rl rr c h rh el er = rw er
  balance-lean k rk v rv (node lk lv ll lr black lh) rl rr c h rh el er = rw er
  balance-lean k rk v rv (node lk lv ll lr red lh) rl rr c h rh el er = cc

  balance_right_lean :
      (k : K) (v : V) (l r : Node K V) (rk : K) (rv : V) (rl rr : Node K V) (c : Color)
      (h rh : Hash)
      → is_red l ≡ false
      → Uniform (node k v l r c h)
      → Leaning (node k v l r c h)
      → Grown r (node rk rv rl rr red rh)
      → Returns
          (Grown (node k v l r c h))
          (balance (rehash (node k v l (node rk rv rl rr red rh) c h)))
  unfolding is_red rehash
  balance_right_lean k v l r rk rv rl rr c h rh el u p g =
      rw (balance-lean k rk v rv l rl rr c h rh el g.nearly.2) (ground arith)

  pub balance_right :
      (k : K) (v : V) (l r r' : Node K V) (c : Color) (h : Hash)
      → Uniform (node k v l r c h)
      → Leaning (node k v l r c h)
      → Grown r r'
      → Returns (Grown (node k v l r c h)) (balance (rehash (node k v l r' c h)))
  unfolding balance lean_left lift_left split_reds left right is_red left_left_red rotate_left
      rotate_right flip_colors flip rehash
  balance_right k v l r null c h u p g = absurd g.nearly
  balance_right k v null r (node rk rv rl rr black rh) c h u p g = ground arith
  balance_right k v null r (node rk rv rl rr red rh) c h u p g =
      balance_right_lean k v null r rk rv rl rr c h rh refl u p g
  balance_right k v (node lk lv ll lr black lh) r (node rk rv rl rr black rh) c h u p g =
      ground arith
  balance_right k v (node lk lv ll lr black lh) r (node rk rv rl rr red rh) c h u p g =
      balance_right_lean k v (node lk lv ll lr black lh) r rk rv rl rr c h rh refl u p g
  balance_right k v (node lk lv null lr red lh) r (node rk rv rl rr black rh) c h u p g =
      ground arith
  balance_right k v (node lk lv null lr red lh) r (node rk rv rl rr red rh) c h u p g = ground arith
  balance_right k v (node lk lv (node xk xv xl xr red xh) lr red lh) r r' c h u p g = ground arith
  balance_right k v (node lk lv (node xk xv xl xr black xh) lr red lh) r (node rk rv rl rr black rh)
        c h u p g =
      ground arith
  balance_right k v (node lk lv (node xk xv xl xr black xh) lr red lh) r (node rk rv rl rr red rh) c
        h u p g =
      ground arith
