-- ===== src/Certified/Map.antt =====
-- ic-kit-certified/src/collections/map.rs: the map over the red-black tree, and the two functions on
-- maps of sequences.
pub mod Laws
use ic_kit.Base.{ℕ, Bool, Option, none, some, ◌>>=◌, List, [], ◌∷◌}
use ic_kit.Certified.HashTree.{Hash, Sha256, HashTree}
use ic_kit.Certified.Label.{Label, AsHashTree}
use ic_kit.Certified.RbTree.Insert.{RbTree}
use ic_kit.Certified.RbTree.Insert as Tree
use ic_kit.Certified.RbTree.Delete.{delete}
use ic_kit.Certified.RbTree.Entry.{Entry, entry}
use ic_kit.Certified.RbTree.Iterator.{RbTreeIterator, start}
use ic_kit.Certified.RbTree.Query.{Prefix, modify, keys_with_prefix}
use ic_kit.Certified.RbTree.Witness.{root_hash, as_hash_tree, witness, keys, key_range, value_range}
use ic_kit.Certified.Seq.{Seq, append, seq_tree}
use ic_kit.Certified.Seq as Seq

pub record Map (K V : Type 0) : Type 0 where
  pub inner : RbTree K V

module _ {K V : Type 0} where
  unfoldable pub new : Map K V
  unfolding Tree.new
  new = record { inner = Tree.new }

  unfoldable pub is_empty : Map K V → Bool
  unfolding Tree.is_empty
  is_empty m = Tree.is_empty m.inner

  unfoldable pub len : Map K V → ℕ
  len m = m.inner.len

  unfoldable pub clear : Map K V → Map K V
  unfolding Tree.new
  clear m = record m { inner = Tree.new }

  unfoldable pub iter : Map K V → RbTreeIterator K V
  unfolding start
  iter m = start m.inner

module _ {K V : Type 0} ⦃s : Sha256⦄ ⦃label : Label K⦄ ⦃tree : AsHashTree V⦄ where
  unfoldable pub insert : K → V → Map K V → Option (Map K V × Option V)
  insert key value m = do (t, old) ← Tree.insert key value m.inner; some (record { inner = t }, old)

  unfoldable pub remove_entry : K → Map K V → Option (Map K V × Option (K × V))
  unfolding delete
  remove_entry key m = do (t, removed) ← delete key m.inner; some (record { inner = t }, removed)

  unfoldable pub remove : K → Map K V → Option (Map K V × Option V)
  unfolding delete
  remove key m = do
    (t, removed) ← delete key m.inner
    some (record { inner = t }, elim removed [ none ↦ none | some e ↦ some e.1 ])

  unfoldable pub get : K → Map K V → Option V
  unfolding Tree.get
  get key m = Tree.get key m.inner

  -- The closure of `get_mut` returns the reference it is given; here the value it leads to.
  unfoldable pub get_mut : K → Map K V → Map K V × Option V
  unfolding modify
  get_mut key m = let p = modify key (λ v. (v, v)) m.inner in (record { inner = p.0 }, p.1)

  -- The witnesses and the digest, which the map takes from its tree.
  unfoldable pub map_witness : K → Map K V → Option HashTree
  unfolding witness
  map_witness key m = witness key m.inner

  unfoldable pub witness_keys : Map K V → HashTree
  unfolding keys
  witness_keys m = keys m.inner

  unfoldable pub witness_value_range : K → K → Map K V → Option HashTree
  unfolding value_range
  witness_value_range first last m = value_range first last m.inner

  unfoldable pub witness_key_range : K → K → Map K V → Option HashTree
  unfolding key_range
  witness_key_range first last m = key_range first last m.inner

  unfoldable pub witness_keys_with_prefix :
      {P : Type 0} → ⦃prefix : Prefix K P⦄ → P → Map K V → Option HashTree
  unfolding keys_with_prefix
  witness_keys_with_prefix p m = keys_with_prefix p m.inner

  unfoldable pub map_hash : Map K V → Hash
  unfolding root_hash
  map_hash m = root_hash m.inner

  unfoldable pub map_tree : Map K V → HashTree
  unfolding as_hash_tree
  map_tree m = as_hash_tree m.inner

  -- `FromIterator`; the loop of `visit_map` inserts the entries that it reads in the same way.
  unfoldable pub insert_each : List (K × V) → Map K V → Option (Map K V)
  unfolding insert
  insert_each [] m = some m
  insert_each ((key, value) ∷ rest) m = do (m, _) ← insert key value m; insert_each rest m

  unfoldable pub from_iter : List (K × V) → Option (Map K V)
  unfolding insert_each new
  from_iter pairs = insert_each pairs new

module _ {K V : Type 0} ⦃s : Sha256⦄ ⦃label : Label K⦄ ⦃tree : AsHashTree V⦄ where
  -- `append_deep`. The closure takes the value: where `modify` has called it, none is left to insert.
  unfoldable pub append_deep : K → V → Map K (Seq V) → Option (Map K (Seq V))
  unfolding modify append Seq.new
  append_deep key value m =
      let p = modify key (λ seq. (append value seq, tt)) m.inner in
      elim p.1 [
        | some _ ↦ some (record { inner = p.0 })
        | none ↦ do (t, _) ← Tree.insert key (append value Seq.new) p.0; some (record { inner = t })
      ]

  unfoldable pub len_deep : K → Map K (Seq V) → ℕ
  unfolding Tree.get Seq.len
  len_deep key m = elim (Tree.get key m.inner) [ none ↦ 0 | some seq ↦ Seq.len seq ]
