-- ===== src/Certified/Group/Directories.antt =====
-- What a group's builder has under each path.
use ic_kit.Base.{
  ℕ, ◌≡◌, ◌≢◌, ◌⊎◌, subst, Option, none, some, ◌>>=◌, List, [], ◌∷◌, inl, inr, Option-cases,
  Ordering-cases, arith,
}
use Prim.Native.Nat.Ordering.{eq}
use ic_kit.Certified.HashTree.{Bytes}
use ic_kit.Certified.ByteKeys.{cmp_bytes, eq_of_cmp_bytes, cmp_bytes-chain, bytes_label}
use ic_kit.Certified.Label.{cmp_self}
use ic_kit.Certified.Group.Builder.{
  GroupBuilderNode, directory, leaf, Children, no_children, child, child_at, set_child, leaf_entry,
  dir_entry, insert_node,
}

-- The type of the leaf under a path.
unfoldable pub leaf_at : List Bytes → GroupBuilderNode → Option ℕ
leaf_at [] (leaf tid) = some tid
leaf_at [] (directory _) = none
leaf_at (name ∷ path) (leaf _) = none
leaf_at (name ∷ path) (directory children) = do node ← child_at name children; leaf_at path node

cmp_bytes_self : (name : Bytes) → cmp_bytes name name ≡ eq
unfolding bytes_label
cmp_bytes_self name = cmp_self ⦃label = bytes_label⦄ name

child_at-set_child :
    (name : Bytes) (node : GroupBuilderNode) (children : Children)
    → child_at name (set_child name node children) ≡ some node
unfolding child_at set_child
child_at-set_child name node no_children = ground (arith, cmp_bytes_self name)
child_at-set_child name node (child other _ children) = ground (
  arith,
  cmp_bytes_self name,
  child_at-set_child name node children,
  Ordering-cases (cmp_bytes name other),
)

child_at-set_other :
    (i name : Bytes) (node : GroupBuilderNode) (children : Children)
    → i ≢ name
    → child_at i (set_child name node children) ≡ child_at i children
unfolding child_at set_child
child_at-set_other i name node no_children apart =
    ground (arith, eq_of_cmp_bytes i name, Ordering-cases (cmp_bytes i name))
child_at-set_other i name node (child other _ children) apart = ground (
  arith,
  eq_of_cmp_bytes i name,
  eq_of_cmp_bytes name other,
  cmp_bytes-chain i name other,
  child_at-set_other i name node children apart,
  Ordering-cases (cmp_bytes i name),
  Ordering-cases (cmp_bytes i other),
  Ordering-cases (cmp_bytes name other),
)

apart_of_ne : (i name : Bytes) → cmp_bytes i name ≢ eq → i ≢ name
apart_of_ne i name n e = n (subst (λ x. cmp_bytes i x ≡ eq) e (cmp_bytes_self i))

-- What is under a name after a child is put under another.
child_at-cases :
    (i name : Bytes) (node : GroupBuilderNode) (children : Children)
    → (i ≡ name) ⊎ (child_at i (set_child name node children) ≡ child_at i children)
child_at-cases i name node children = elim (Ordering-cases (cmp_bytes i name)) [
  | inl l ↦ inr (child_at-set_other i name node children (apart_of_ne i name (λ e. cc)))
  | inr (inl e) ↦ inl (eq_of_cmp_bytes i name e)
  | inr (inr g) ↦ inr (child_at-set_other i name node children (apart_of_ne i name (λ e. cc)))
]

-- An insert that returns puts the leaf under the path.
pub leaf_at-insert_node :
    (path : List Bytes) (tid : ℕ) (node node' : GroupBuilderNode)
    → insert_node path tid node ≡ some node'
    → leaf_at path node' ≡ some tid
unfolding insert_node leaf_at leaf_entry dir_entry
leaf_at-insert_node _ tid (leaf _) node' e = absurd (cc)
leaf_at-insert_node [] tid (directory _) node' e = absurd (cc)
leaf_at-insert_node (name ∷ []) tid (directory children) node' e =
    ground
      (arith, child_at-set_child name (leaf tid) children, Option-cases (child_at name children))
leaf_at-insert_node (name ∷ next ∷ path) tid (directory children) node' e =
    let old = dir_entry (child_at name children) in
    elim (Option-cases (insert_node (next ∷ path) tid old)) [
      | inl n ↦ absurd (cc)
      | inr (new, f) ↦
          let h = leaf_at-insert_node (next ∷ path) tid old new f in
          let p = child_at-set_child name new children in ground (arith, e, f, h, p)
    ]

-- An insert that returns keeps each leaf under its path.
pub leaf_at-insert_other :
    (path q : List Bytes) (tid t : ℕ) (node node' : GroupBuilderNode)
    → insert_node path tid node ≡ some node'
    → leaf_at q node ≡ some t
    → leaf_at q node' ≡ some t
unfolding insert_node leaf_at leaf_entry dir_entry
leaf_at-insert_other path q tid t (leaf _) node' e l = absurd (cc)
leaf_at-insert_other [] q tid t (directory _) node' e l = absurd (cc)
leaf_at-insert_other (name ∷ _) [] tid t (directory _) node' e l = absurd (cc)
leaf_at-insert_other (name ∷ []) (i ∷ q) tid t (directory children) node' e l =
    ground (arith, child_at-cases i name (leaf tid) children, Option-cases (child_at name children))
leaf_at-insert_other (name ∷ next ∷ path) (i ∷ q) tid t (directory children) node' e l =
    let old = dir_entry (child_at name children) in
    elim (Option-cases (insert_node (next ∷ path) tid old)) [
      | inl n ↦ absurd (cc)
      | inr (new, f) ↦
          let h = leaf_at-insert_other (next ∷ path) q tid t old new f in
          let p = child_at-set_child name new children in
          let c = child_at-cases i name new children in
          ground (arith, e, f, h, p, c, l, Option-cases (child_at name children))
    ]
