-- ===== src/Certified/RbTree/Entry.antt =====
-- ic-kit-certified/src/rbtree/entry.rs: the entry API. An entry borrows the tree, so it carries it; an
-- occupied entry's pointer is the path that `get_node` takes to its key. A reference to a value is the
-- value; a write through one is `write_value`.
pub mod Laws
use Prim.Native.Nat.Ordering.{lt, eq, gt}
use ic_kit.Base.{Option, none, some, ◌>>=◌}
use ic_kit.Certified.HashTree.{Sha256}
use ic_kit.Certified.Label.{Label, AsHashTree}
use ic_kit.Certified.RbTree.Node.{Node, null, node}
use ic_kit.Certified.RbTree.Insert.{RbTree, get_from, get, insert}
use ic_kit.Certified.RbTree.Delete.{delete}

pub record VacantEntry (K V : Type 0) : Type 0 where
  pub tree : RbTree K V
  pub key : K

pub record OccupiedEntry (K V : Type 0) : Type 0 where
  pub tree : RbTree K V
  pub key : K
  -- The value that the pointer `node` leads to.
  pub value : V

pub data Entry (K V : Type 0) : Type 0 where
  vacant : VacantEntry K V → Entry K V
  occupied : OccupiedEntry K V → Entry K V

module _ {K V : Type 0} ⦃label : Label K⦄ where
  -- `RbTree::entry`; `get_node` walks as `get` does.
  unfoldable pub entry : K → RbTree K V → Entry K V
  unfolding get get_from
  entry key t = elim (get key t) [
    | none ↦ vacant (record { tree = t; key = key })
    | some v ↦ occupied (record { tree = t; key = key; value = v })
  ]

  -- A write to the value of the key's node. No hash is computed.
  unfoldable pub write_from : K → V → Node K V → Node K V
  write_from key value null = null
  write_from key value (node k v l r c h) = elim (label.cmp key k) [
    | eq ↦ node k value l r c h
    | lt ↦ node k v (write_from key value l) r c h
    | gt ↦ node k v l (write_from key value r) c h
  ]

  unfoldable pub write_value : K → V → RbTree K V → RbTree K V
  unfolding write_from
  write_value key value t = record t { root = write_from key value t.root }

  -- `Entry::and_modify`: the closure writes through `get_mut`.
  unfoldable pub and_modify : (V → V) → Entry K V → Entry K V
  unfolding write_value
  and_modify f (occupied e) =
      occupied
        (record { tree = write_value e.key (f e.value) e.tree; key = e.key; value = f e.value })
  and_modify f (vacant e) = vacant e

  unfoldable pub entry_key : Entry K V → K
  entry_key (occupied e) = e.key
  entry_key (vacant e) = e.key

  -- The tree once the entry is dropped.
  unfoldable pub entry_tree : Entry K V → RbTree K V
  entry_tree (occupied e) = e.tree
  entry_tree (vacant e) = e.tree

module _ {K V : Type 0} ⦃s : Sha256⦄ ⦃label : Label K⦄ ⦃tree : AsHashTree V⦄ where
  -- `VacantEntry::insert`: the tree, and the value that the returned reference leads to.
  unfoldable pub vacant_insert : V → VacantEntry K V → Option (RbTree K V × V)
  unfolding insert
  vacant_insert value e = do (t, _) ← insert e.key value e.tree; some (t, value)

  -- `OccupiedEntry::remove_entry`; `unwrap` panics where nothing is removed.
  unfoldable pub remove_entry : OccupiedEntry K V → Option (RbTree K V × (K × V))
  unfolding delete
  remove_entry e = do
    (t, removed) ← delete e.key e.tree
    elim removed [ none ↦ none | some kv ↦ some (t, kv) ]

  -- `OccupiedEntry::remove`.
  unfoldable pub remove : OccupiedEntry K V → Option (RbTree K V × V)
  unfolding remove_entry
  remove e = do (t, kv) ← remove_entry e; some (t, kv.1)

  -- `Entry::or_insert_with_key`.
  unfoldable pub or_insert_with_key : (K → V) → Entry K V → Option (RbTree K V × V)
  unfolding vacant_insert
  or_insert_with_key default (occupied e) = some (e.tree, e.value)
  or_insert_with_key default (vacant e) = vacant_insert (default e.key) e

  -- `Entry::or_insert`.
  unfoldable pub or_insert : V → Entry K V → Option (RbTree K V × V)
  unfolding vacant_insert
  or_insert default (occupied e) = some (e.tree, e.value)
  or_insert default (vacant e) = vacant_insert default e

  -- `Entry::or_insert_with` and `Entry::or_default`, whose default is that of the type.
  unfoldable pub or_insert_with : (Unit {0} → V) → Entry K V → Option (RbTree K V × V)
  unfolding vacant_insert
  or_insert_with default (occupied e) = some (e.tree, e.value)
  or_insert_with default (vacant e) = vacant_insert (default tt) e
