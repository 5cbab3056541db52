-- ===== src/Certified/Group/Filled.antt =====
-- A group's builder in use: what was inserted is in the group that is built.
use ic_kit.Base.{
  ℕ, suc, ◌≡◌, ◌∙◌, sym, ap, none, some, List, ◌∷◌, ◌++◌, [], refl, Returns, Option-cases, inl, inr,
  arith,
}
use ic_kit.Dict.{Dict, find, put, find-put}
use ic_kit.Certified.HashTree.{Bytes}
use ic_kit.Certified.Group.{GroupNode, fork, labeled, leaf, visit_node, init}
use ic_kit.Certified.Group.Builder.{
  GroupBuilder, new, build_children, insert, insert_node, build_group,
}
use ic_kit.Certified.Group.Buildable.{
  AllBuildable, Buildable, Buildable-AllBuildable, insert_node-Buildable,
}
use ic_kit.Certified.Group.Directories.{leaf_at, leaf_at-insert_node, leaf_at-insert_other}
use ic_kit.Certified.Group.Shown.{
  LeafUnder, at_leaf, at_label, at_left, at_right, build_node-LeafUnder,
}

visit_node-LeafUnder :
    (path : List Bytes) (t : ℕ) (node : GroupNode) (id : ℕ) (old : Dict (List ℕ)) (ids : List ℕ)
    → LeafUnder path t node
    → LeafUnder path t (visit_node node id old ids).0
unfolding visit_node
visit_node-LeafUnder path t (leaf _ _) id old ids at_leaf = at_leaf
visit_node-LeafUnder path t (labeled _ _ node) id old ids (at_label u) =
    at_label (visit_node-LeafUnder _ t node (suc id) old (ids ++ id ∷ []) u)
visit_node-LeafUnder path t (fork _ left right) id old ids (at_left u) =
    at_left (visit_node-LeafUnder path t left (suc id) old (ids ++ id ∷ []) u)
visit_node-LeafUnder path t (fork _ left right) id old ids (at_right u) =
    let (_, deps, next_id) = visit_node left (suc id) old (ids ++ id ∷ []) in
    at_right (visit_node-LeafUnder path t right next_id deps (ids ++ id ∷ []) u)

module _ {V : Type 0} where
  -- A new builder, and one after inserts.
  pub data Made : GroupBuilder V → Type 0 where
    made_new : Made new
    made_insert :
        {after : GroupBuilder V} (path : List Bytes) (tid : ℕ) (value : V)
        (builder : GroupBuilder V)
        → Made builder
        → insert path tid value builder ≡ some after
        → Made after

  -- A new builder after inserts, one of them of this value of this type under this path.
  pub data Filled (path : List Bytes) (tid : ℕ) (value : V) : GroupBuilder V → Type 0 where
    by_last :
        {after : GroupBuilder V} (builder : GroupBuilder V)
        → Made builder
        → insert path tid value builder ≡ some after
        → Filled path tid value after
    by_earlier :
        {builder after : GroupBuilder V} (q : List Bytes) (t : ℕ) (other : V)
        → insert q t other builder ≡ some after
        → Filled path tid value builder
        → Filled path tid value after

  -- The parts of an insert that returns.
  insert-parts :
      (path : List Bytes) (tid : ℕ) (value : V) (builder after : GroupBuilder V)
      → insert path tid value builder ≡ some after
      → (find tid builder.values ≡ none)
        × (insert_node path tid builder.root ≡ some after.root)
        × (after.values ≡ put tid value builder.values)
  unfolding insert
  insert-parts path tid value builder after e = elim (Option-cases (find tid builder.values)) [
    | inr (_, f) ↦ absurd (cc)
    | inl f ↦ elim (Option-cases (insert_node path tid builder.root)) [
      | inl n ↦ absurd (cc)
      | inr (root, g) ↦
          let made : record { root = root; values = put tid value builder.values } ≡ after =
            ground (arith, e, f, g) in
          (f, g ∙ ap (λ b. some b.root) made, sym (ap (λ b. b.values) made))
    ]
  ]

  Filled-kept :
      {path : List Bytes} {tid : ℕ} {value : V} {builder : GroupBuilder V}
      → Filled path tid value builder
      → (leaf_at path builder.root ≡ some tid) × (find tid builder.values ≡ some value)
  Filled-kept {path} {tid} {value} (by_last {after} builder _ e) =
      let (f, g, h) = insert-parts path tid value builder after e in
      (
        leaf_at-insert_node path tid builder.root after.root g,
        ground (arith, ap (find tid) h, find-put tid tid value builder.values),
      )
  Filled-kept {path} {tid} {value} (by_earlier {builder} {after} q t other e filled) =
      let (f, g, h) = insert-parts q t other builder after e in
      let (l, v) = Filled-kept filled in
      (
        leaf_at-insert_other q path t tid builder.root after.root g l,
        ground (arith, ap (find tid) h, find-put tid t other builder.values),
      )

  Filled-Made :
      {path : List Bytes} {tid : ℕ} {value : V} {builder : GroupBuilder V}
      → Filled path tid value builder
      → Made builder
  Filled-Made {path} {tid} {value} (by_last builder made e) =
      made_insert path tid value builder made e
  Filled-Made (by_earlier {builder} q t other e filled) =
      made_insert q t other builder (Filled-Made filled) e

  Made-AllBuildable : {builder : GroupBuilder V} → Made builder → AllBuildable builder.root
  unfolding new build_children
  Made-AllBuildable made_new = ([], refl)
  Made-AllBuildable (made_insert {after} path tid value builder made e) =
      let (f, g, h) = insert-parts path tid value builder after e in
      Buildable-AllBuildable after.root
        (insert_node-Buildable path tid builder.root after.root (Made-AllBuildable made) g)

  Filled-Buildable :
      {path : List Bytes} {tid : ℕ} {value : V} {builder : GroupBuilder V}
      → Filled path tid value builder
      → Buildable builder.root
  Filled-Buildable {path} {tid} {value} (by_last {after} builder made e) =
      insert_node-Buildable path tid builder.root after.root (Made-AllBuildable made)
        (insert-parts path tid value builder after e).1
  Filled-Buildable (by_earlier {builder} {after} q t other e filled) =
      insert_node-Buildable q t builder.root after.root (Made-AllBuildable (Filled-Made filled))
        (insert-parts q t other builder after e).1

  -- A group is built without a panic from a new builder after inserts, each of which returned; it has each value that was inserted, as
  -- that of its type, and a leaf of the type under the labels of the path at which it was inserted.
  pub build_group-LeafUnder :
      (path : List Bytes) (tid : ℕ) (value : V) (builder : GroupBuilder V)
      → Filled path tid value builder
      → Returns
          (λ group. LeafUnder path tid group.root × (find tid group.values ≡ some value))
          (build_group builder)
  unfolding build_group init
  build_group-LeafUnder path tid value builder filled =
      let (l, v) = Filled-kept filled in
      let (root, f) = Filled-Buildable filled in
      rw f (
        visit_node-LeafUnder path tid root 0 [] []
            (build_node-LeafUnder path tid builder.root root f l),
        v,
      )
