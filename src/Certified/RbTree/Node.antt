-- ===== src/Certified/RbTree/Node.antt =====
-- `Color`, `Node` and the functions on nodes of rbtree.rs. A node is owned by the one pointer to it,
-- so a subtree is a value, and `null` is the null pointer. Code that dereferences a pointer returns
-- an `Option`, where `none` is the dereference of a null pointer (or a failed assertion).
use ic_kit.Base.{Bool, true, false, not, ◌&&◌, Option, none, some, ◌>>=◌, if◌then◌else◌}
use ic_kit.Certified.HashTree.{
  Hash, Sha256, HashTree, empty, fork, pruned, fork_hash, labeled_hash, reconstruct,
}
use ic_kit.Certified.Label.{Label, AsHashTree}

pub data Color : Type 0 where
  red black : Color

unfoldable pub flip : Color → Color
flip red = black
flip black = red

-- The fields in the order of the struct: key, value, left, right, color, subtree_hash.
pub data Node (K V : Type 0) : Type 0 where
  null : Node K V
  node : K → V → Node K V → Node K V → Color → Hash → Node K V

-- Joins the trees of a left subtree, a node and a right subtree.
unfoldable pub three_way_fork : ⦃s : Sha256⦄ → HashTree → HashTree → HashTree → HashTree
three_way_fork empty m empty = m
three_way_fork l m empty = fork l m
three_way_fork empty m r = fork m r
three_way_fork (pruned lhash) (pruned mhash) (pruned rhash) =
    pruned (fork_hash lhash (fork_hash mhash rhash))
three_way_fork l (pruned mhash) (pruned rhash) = fork l (pruned (fork_hash mhash rhash))
three_way_fork l m r = fork l (fork m r)

module _ {K V : Type 0} where
  unfoldable pub is_null : Node K V → Bool
  is_null null = true
  is_null (node _ _ _ _ _ _) = false

  unfoldable pub is_red : Node K V → Bool
  is_red null = false
  is_red (node _ _ _ _ red _) = true
  is_red (node _ _ _ _ black _) = false

  -- `(*n).left` and `(*n).right`.
  unfoldable pub left : Node K V → Option (Node K V)
  left null = none
  left (node _ _ l _ _ _) = some l

  unfoldable pub right : Node K V → Option (Node K V)
  right null = none
  right (node _ _ _ r _ _) = some r

  unfoldable pub flip_colors : Node K V → Option (Node K V)
  flip_colors (node k v (node lk lv ll lr lc ls) (node rk rv rl rr rc rs) c s) =
      some (node k v (node lk lv ll lr (flip lc) ls) (node rk rv rl rr (flip rc) rs) (flip c) s)
  flip_colors _ = none

  -- `(*n).color = Color::Black`, and red.
  unfoldable pub set_color : Color → Node K V → Option (Node K V)
  set_color c null = none
  set_color c (node k v l r _ s) = some (node k v l r c s)

module _ {K V : Type 0} ⦃s : Sha256⦄ ⦃label : Label K⦄ ⦃tree : AsHashTree V⦄ where
  unfoldable pub data_hash : K → V → Hash
  data_hash k v = labeled_hash (label.as_label k) (tree.root_hash v)

  -- The four cases of `Node::subtree_hash`, which reads the stored hashes of the children.
  unfoldable pub node_hash : K → V → Node K V → Node K V → Hash
  unfolding data_hash
  node_hash k v null null = data_hash k v
  node_hash k v (node _ _ _ _ _ lhash) null = fork_hash lhash (data_hash k v)
  node_hash k v null (node _ _ _ _ _ rhash) = fork_hash (data_hash k v) rhash
  node_hash k v (node _ _ _ _ _ lhash) (node _ _ _ _ _ rhash) =
      fork_hash lhash (fork_hash (data_hash k v) rhash)

  unfoldable pub subtree_hash : Node K V → Hash
  unfolding node_hash
  subtree_hash null = reconstruct empty
  subtree_hash (node k v l r _ _) = node_hash k v l r

  -- `Node::new`.
  unfoldable pub new_node : K → V → Node K V
  unfolding data_hash
  new_node k v = node k v null null red (data_hash k v)

  -- `(*h).subtree_hash = Node::subtree_hash(h)`.
  unfoldable pub rehash : Node K V → Node K V
  unfolding subtree_hash
  rehash null = null
  rehash (node k v l r c h) = node k v l r c (subtree_hash (node k v l r c h))

  -- The rotations, with the assertion that the child which comes up is red.
  unfoldable pub rotate_left : Node K V → Option (Node K V)
  unfolding rehash
  rotate_left (node k v l (node xk xv xl xr red xs) c s) =
      some (rehash (node xk xv (rehash (node k v l xl red s)) xr c xs))
  rotate_left _ = none

  unfoldable pub rotate_right : Node K V → Option (Node K V)
  unfolding rehash
  rotate_right (node k v (node xk xv xl xr red xs) r c s) =
      some (rehash (node xk xv xl (rehash (node k v xr r red s)) c xs))
  rotate_right _ = none

  -- `is_red((*h).left) && is_red((*(*h).left).left)`.
  unfoldable pub left_left_red : Node K V → Option Bool
  unfolding left is_red
  left_left_red h = do
    l ← left h
    if is_red l then (do ll ← left l; some (is_red ll)) else some false

  -- The three conditions of `balance`, in their order.
  unfoldable pub lean_left : Node K V → Option (Node K V)
  unfolding left right is_red rotate_left
  lean_left h = do
    r ← right h
    l ← left h
    if is_red r && not (is_red l) then rotate_left h else some h

  unfoldable pub lift_left : Node K V → Option (Node K V)
  unfolding left_left_red rotate_right
  lift_left h = do two_reds ← left_left_red h; if two_reds then rotate_right h else some h

  unfoldable pub split_reds : Node K V → Option (Node K V)
  unfolding left right is_red flip_colors flip
  split_reds h = do l ← left h; r ← right h; if is_red l && is_red r then flip_colors h else some h

  unfoldable pub balance : Node K V → Option (Node K V)
  unfolding lean_left lift_left split_reds
  balance h = do h ← lean_left h; h ← lift_left h; split_reds h
