-- ===== src/Certified/RbTree/Delete.antt =====
-- `delete` of rbtree.rs. The recursions go into subtrees of rotated nodes, so they take fuel; `none` is
-- a null pointer that is dereferenced, a failed assertion, or fuel that runs out. `delete` gives as much fuel as the tree
-- has nodes. A `result` that the code writes through a reference is returned beside the node.
use Prim.Native.Nat.Ordering.{lt, eq}
use ic_kit.Base.{
  ℕ, zero, suc, ◌+◌, ◌-◌, Bool, true, false, not, ◌&&◌, Option, none, some, ◌>>=◌, if◌then◌else◌,
  Ordering,
}
use ic_kit.Certified.HashTree.{Sha256}
use ic_kit.Certified.Label.{Label, AsHashTree}
use ic_kit.Certified.RbTree.Node.{
  red, black, Node, null, node, left, right, is_null, is_red, flip_colors, set_color, rehash,
  rotate_left, rotate_right, balance,
}
use ic_kit.Certified.RbTree.Insert.{RbTree, get}

abbrev pub is_equal : Ordering → Bool
is_equal eq = true
is_equal _ = false

module _ {K V : Type 0} where
  abbrev pub size : Node K V → ℕ
  size null = 0
  size (node k v l r c h) = suc (size l + size r)

  -- Writes through a pointer to a node.
  unfoldable pub set_left : Node K V → Node K V → Option (Node K V)
  set_left l null = none
  set_left l (node k v _ r c h) = some (node k v l r c h)

  unfoldable pub set_right : Node K V → Node K V → Option (Node K V)
  set_right r null = none
  set_right r (node k v l _ c h) = some (node k v l r c h)

  unfoldable pub entry_of : Node K V → Option (K × V)
  entry_of null = none
  entry_of (node k v _ _ _ _) = some (k, v)

  unfoldable pub set_entry : K × V → Node K V → Option (Node K V)
  set_entry e null = none
  set_entry e (node _ _ l r c h) = some (node e.0 e.1 l r c h)

  -- `!is_red((*h).left) && !is_red((*(*h).left).left)`, and the same of the right child.
  unfoldable pub lacks_red_left : Node K V → Option Bool
  unfolding left is_red
  lacks_red_left h = do
    l ← left h
    if is_red l then some false else (do ll ← left l; some (not (is_red ll)))

  unfoldable pub lacks_red_right : Node K V → Option Bool
  unfolding left right is_red
  lacks_red_right h = do
    r ← right h
    if is_red r then some false else (do rl ← left r; some (not (is_red rl)))

  -- `min`, by the entry that the pointer leads to.
  unfoldable pub min_entry : Node K V → Option (K × V)
  min_entry null = none
  min_entry (node k v null r c h) = some (k, v)
  min_entry (node k v l r c h) = min_entry l

  -- A write to the entry that `min` leads to; the hashes above it stay as they are.
  unfoldable pub set_min : K × V → Node K V → Node K V
  set_min e null = null
  set_min e (node k v null r c h) = node e.0 e.1 null r c h
  set_min e (node k v l r c h) = node k v (set_min e l) r c h

module _ {K V : Type 0} ⦃s : Sha256⦄ ⦃label : Label K⦄ ⦃tree : AsHashTree V⦄ where
  unfoldable pub move_red_left : Node K V → Option (Node K V)
  unfolding flip_colors left right is_red rotate_left rotate_right set_right
  move_red_left h = do
    h ← flip_colors h
    r ← right h
    rl ← left r
    if is_red rl
        then (do r' ← rotate_right r; h ← set_right r' h; h ← rotate_left h; flip_colors h)
        else some h

  unfoldable pub move_red_right : Node K V → Option (Node K V)
  unfolding flip_colors left is_red rotate_right
  move_red_right h = do
    h ← flip_colors h
    l ← left h
    ll ← left l
    if is_red ll then (do h ← rotate_right h; flip_colors h) else some h

  -- The last two lines of `delete_min` and of `go`.
  unfoldable pub finish : Node K V → K × V → Option (Node K V × (K × V))
  unfolding rehash balance
  finish h e = do h ← balance (rehash h); some (h, e)

  -- `delete_min` and `go` go left by the same lines, over the recursive call.
  unfoldable pub open_left : Node K V → Option (Node K V)
  unfolding lacks_red_left move_red_left
  open_left h = do lacks ← lacks_red_left h; if lacks then move_red_left h else some h

  unfoldable pub in_left :
      (Node K V → Option (Node K V × (K × V))) → Node K V → Option (Node K V × (K × V))
  unfolding open_left left set_left finish
  in_left rec h = do h ← open_left h; l ← left h; (l', e) ← rec l; h ← set_left l' h; finish h e

  unfoldable pub in_right :
      (Node K V → Option (Node K V × (K × V))) → Node K V → Option (Node K V × (K × V))
  unfolding right set_right finish
  in_right rec h = do r ← right h; (r', e) ← rec r; h ← set_right r' h; finish h e

  unfoldable pub delete_min : ℕ → Node K V → Option (Node K V × (K × V))
  unfolding left right is_null entry_of in_left
  delete_min zero h = none
  delete_min (suc fuel) h = do
    l ← left h
    elim (is_null l) [
      | true ↦ do r ← right h; e ← entry_of h; if is_null r then some (null, e) else none
      | false ↦ in_left (delete_min fuel) h
    ]

  -- `std::mem::swap` of the keys and of the values of `h` and the least node on its right.
  unfoldable pub swap_with_min : Node K V → Option (Node K V)
  unfolding right min_entry entry_of set_entry set_right set_min
  swap_with_min h = do
    r ← right h
    m ← min_entry r
    e ← entry_of h
    h ← set_entry m h
    set_right (set_min e r) h

  unfoldable pub open_right : Node K V → Option (Node K V)
  unfolding lacks_red_right move_red_right
  open_right h = do lacks ← lacks_red_right h; if lacks then move_red_right h else some h

  -- The branch of `go` for a key that is not below that of `h`, after its first rotation.
  unfoldable pub take_right :
      K
      → (Node K V → Option (Node K V × (K × V)))
      → (Node K V → Option (Node K V × (K × V)))
      → Node K V
      → Option (Node K V × (K × V))
  unfolding left right is_null entry_of open_right swap_with_min in_right
  take_right key take_min rec h = do
    e ← entry_of h
    r ← right h
    elim (is_equal (label.cmp key e.0) && is_null r) [
      | true ↦ do l ← left h; if is_null l then some (null, e) else none
      | false ↦ do
        h ← open_right h
        e ← entry_of h
        elim (is_equal (label.cmp key e.0)) [
          | true ↦ (do h ← swap_with_min h; in_right take_min h)
          | false ↦ in_right rec h
        ]
    ]

  -- `go` of `delete`.
  unfoldable pub delete_from : ℕ → K → Node K V → Option (Node K V × (K × V))
  unfolding entry_of left is_red rotate_right in_left take_right delete_min
  delete_from zero key h = none
  delete_from (suc fuel) key h = do
    e ← entry_of h
    elim (label.cmp key e.0) [
      | lt ↦ in_left (delete_from fuel key) h
      | _ ↦ do
        l ← left h
        h ← if is_red l then rotate_right h else some h
        take_right key (delete_min fuel) (delete_from fuel key) h
    ]

  -- `if !self.root.is_null() { (*self.root).color = Color::Black }`.
  unfoldable pub blacken : Node K V → Node K V
  blacken null = null
  blacken (node k v l r _ h) = node k v l r black h

  unfoldable pub redden_root : Node K V → Option (Node K V)
  unfolding left right is_red set_color
  redden_root h = do
    l ← left h
    r ← right h
    if not (is_red l) && not (is_red r) then set_color red h else some h

  -- `self.get(key)?` leaves the tree alone where the key is not there. `len` is positive where it is.
  unfoldable pub delete : K → RbTree K V → Option (RbTree K V × Option (K × V))
  unfolding get redden_root delete_from blacken
  delete key t = elim (get key t) [
    | none ↦ some (t, none)
    | some _ ↦ do
      h ← redden_root t.root
      (h, e) ← delete_from (size t.root) key h
      let after : RbTree K V = record { len = t.len - 1; root = blacken h }
      elim (get key after) [ none ↦ some (after, some e) | some _ ↦ none ]
  ]
