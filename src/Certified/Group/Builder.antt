-- ===== src/Certified/Group/Builder.antt =====
-- ic-kit-certified/src/collections/group/builder.rs: directories of leaves under their paths, from which a
-- group is made. A `String` is its bytes, in whose order a `BTreeMap` has its names; `none` is a panic.
use ic_kit.Base.{
  ℕ, zero, suc, ◌≤◌, Option, none, some, ◌>>=◌, List, [], ◌∷◌, length, Returns, arith,
}
use Prim.Native.Nat.Ordering.{lt, eq, gt}
use ic_kit.Dict.{Dict, find, put}
use ic_kit.Certified.HashTree.{Bytes}
use ic_kit.Certified.ByteKeys.{cmp_bytes}
use ic_kit.Certified.Group.{GroupNode, Group, init}

mutual
  pub data GroupBuilderNode : Type 0 where
    directory : Children → GroupBuilderNode
    leaf : ℕ → GroupBuilderNode

  -- The children of a directory in the order of their names.
  pub data Children : Type 0 where
    no_children : Children
    child : Bytes → GroupBuilderNode → Children → Children

pub record GroupBuilder (V : Type 0) : Type 0 where
  pub root : GroupBuilderNode
  pub values : Dict V

-- What the map of children has under a name.
unfoldable pub child_at : Bytes → Children → Option GroupBuilderNode
child_at name no_children = none
child_at name (child other node children) = elim (cmp_bytes name other) [
  | lt ↦ none
  | eq ↦ some node
  | gt ↦ child_at name children
]

-- The map with a child under a name.
unfoldable pub set_child : Bytes → GroupBuilderNode → Children → Children
set_child name node no_children = child name node no_children
set_child name node (child other node' children) = elim (cmp_bytes name other) [
  | lt ↦ child name node (child other node' children)
  | eq ↦ child name node children
  | gt ↦ child other node' (set_child name node children)
]

-- The entry with the leaf put in it, which must be vacant.
unfoldable pub leaf_entry : Option GroupBuilderNode → ℕ → Option GroupBuilderNode
leaf_entry none tid = some (leaf tid)
leaf_entry (some _) tid = none

-- The entry, with an empty directory put in it where it is vacant.
unfoldable pub dir_entry : Option GroupBuilderNode → GroupBuilderNode
dir_entry none = directory no_children
dir_entry (some node) = node

-- `GroupBuilderNode::insert`
unfoldable pub insert_node : List Bytes → ℕ → GroupBuilderNode → Option GroupBuilderNode
unfolding leaf_entry dir_entry child_at set_child
insert_node _ tid (leaf _) = none
insert_node [] tid (directory _) = none
insert_node (name ∷ []) tid (directory children) = do
  node ← leaf_entry (child_at name children) tid
  some (directory (set_child name node children))
insert_node (dir_name ∷ next ∷ path) tid (directory children) = do
  node ← insert_node (next ∷ path) tid (dir_entry (child_at dir_name children))
  some (directory (set_child dir_name node children))

-- The inner loop of `GroupBuilderNode::build`: neighbours are joined, and a last one without a neighbour stays.
unfoldable pub join_pairs : List GroupNode → List GroupNode
join_pairs (a ∷ b ∷ children) = GroupNode.fork 0 a b ∷ join_pairs children
join_pairs (last ∷ []) = last ∷ []
join_pairs [] = []

-- The outer loop, with fuel, and the `pop_front` after it.
unfoldable pub balance : ℕ → List GroupNode → Option GroupNode
unfolding join_pairs
balance fuel [] = none
balance fuel (last ∷ []) = some last
balance zero (a ∷ b ∷ children) = none
balance (suc fuel) (a ∷ b ∷ children) = balance fuel (join_pairs (a ∷ b ∷ children))

-- `GroupBuilderNode::build`
unfoldable mutual
  unfolding balance

  pub build_node : GroupBuilderNode → Option GroupNode
  build_node (directory children) = do nodes ← build_children children; balance (length nodes) nodes
  build_node (leaf tid) = some (GroupNode.leaf 0 tid)

  -- The labelled children, which `into_iter` and `map` make.
  pub build_children : Children → Option (List GroupNode)
  build_children no_children = some []
  build_children (child name node children) = do
    v ← build_node node
    nodes ← build_children children
    some (GroupNode.labeled 0 name v ∷ nodes)

module _ {V : Type 0} where
  -- `GroupBuilder::new`
  unfoldable pub new : GroupBuilder V
  new = record { root = directory no_children; values = [] }

  -- `GroupBuilder::insert`, of data of the type with the number `tid`, which no data in it may have.
  unfoldable pub insert : List Bytes → ℕ → V → GroupBuilder V → Option (GroupBuilder V)
  unfolding insert_node
  insert path tid value builder = elim (find tid builder.values) [
    | some _ ↦ none
    | none ↦ do
      root ← insert_node path tid builder.root
      some (record { root = root; values = put tid value builder.values })
  ]

  -- `GroupBuilder::build`
  unfoldable pub build_group : GroupBuilder V → Option (Group V)
  unfolding build_node
  build_group builder = do
    root ← build_node builder.root
    some (init (record { root = root; values = builder.values; dependencies = [] }))

join_pairs-shorter : (nodes : List GroupNode) → length (join_pairs nodes) ≤ length nodes
unfolding join_pairs
join_pairs-shorter [] = omega arith
join_pairs-shorter (_ ∷ []) = omega arith
join_pairs-shorter (_ ∷ _ ∷ nodes) = omega (arith, join_pairs-shorter nodes)

-- As much fuel as there are nodes is enough for any nodes but none.
pub balance-Returns :
    (fuel : ℕ) (a : GroupNode) (nodes : List GroupNode)
    → length (a ∷ nodes) ≤ fuel
    → Returns (λ _. Unit) (balance fuel (a ∷ nodes))
unfolding balance join_pairs
balance-Returns fuel a [] few = ground arith
balance-Returns zero a (b ∷ nodes) few = absurd (omega arith)
balance-Returns (suc fuel) a (b ∷ nodes) few =
    balance-Returns fuel (GroupNode.fork 0 a b) (join_pairs nodes)
      (omega (arith, join_pairs-shorter nodes))
