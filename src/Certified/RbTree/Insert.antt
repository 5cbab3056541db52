-- ===== src/Certified/RbTree/Insert.antt =====
-- `RbTree`, its lookups and `insert` of rbtree.rs. The `&mut V` that `insert` returns points to the
-- value that it has just stored, and has no part in the state.
pub mod Refines
use Prim.Native.Nat.Ordering.{lt, eq, gt}
use ic_kit.Base.{ℕ, ◌+◌, Bool, Option, none, some, ◌>>=◌}
use ic_kit.Certified.HashTree.{Sha256}
use ic_kit.Certified.Label.{Label, AsHashTree}
use ic_kit.Certified.RbTree.Node.{
  black, Node, null, node, is_null, set_color, new_node, rehash, balance,
}

pub record RbTree (K V : Type 0) : Type 0 where
  pub len : ℕ
  pub root : Node K V

module _ {K V : Type 0} where
  unfoldable pub new : RbTree K V
  new = record { len = 0; root = null }

  unfoldable pub is_empty : RbTree K V → Bool
  unfolding is_null
  is_empty t = is_null t.root

module _ {K V : Type 0} ⦃label : Label K⦄ where
  -- The loop of `get` walks down from `n`.
  unfoldable pub get_from : K → Node K V → Option V
  get_from key null = none
  get_from key (node k v l r _ _) = elim (label.cmp key k) [
    | eq ↦ some v
    | lt ↦ get_from key l
    | gt ↦ get_from key r
  ]

  unfoldable pub get : K → RbTree K V → Option V
  unfolding get_from
  get key t = get_from key t.root

module _ {K V : Type 0} ⦃s : Sha256⦄ ⦃label : Label K⦄ ⦃tree : AsHashTree V⦄ where
  -- `go` of `insert`: the new subtree and the old value.
  unfoldable pub insert_from : K → V → Node K V → Option (Node K V × Option V)
  unfolding new_node
  insert_from key value null = some (new_node key value, none)
  insert_from key value (node k v l r c h) = elim (label.cmp key k) [
    | eq ↦ do n ← balance (rehash (node k value l r c h)); some (n, some v)
    | lt ↦ do
      (l', old) ← insert_from key value l
      n ← balance (rehash (node k v l' r c h))
      some (n, old)
    | gt ↦ do
      (r', old) ← insert_from key value r
      n ← balance (rehash (node k v l r' c h))
      some (n, old)
  ]

  unfoldable pub insert : K → V → RbTree K V → Option (RbTree K V × Option V)
  insert key value t = do
    (n, old) ← insert_from key value t.root
    n ← set_color black n
    some (record { len = elim old [ none ↦ t.len + 1 | some _ ↦ t.len ]; root = n }, old)
