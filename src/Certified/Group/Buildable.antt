-- ===== src/Certified/Group/Buildable.antt =====
-- From which builders (builder.rs) a group can be built.
use ic_kit.Base.{
  ℕ, ◌≡◌, refl, Option, subst, none, some, List, [], ◌∷◌, Option-cases, Ordering-cases, inl, inr,
  length, Returns, arith,
}
use ic_kit.Certified.HashTree.{Bytes}
use ic_kit.Certified.ByteKeys.{cmp_bytes}
use ic_kit.Certified.Group.{GroupNode, labeled}
use ic_kit.Certified.Group.Builder.{
  GroupBuilderNode, directory, leaf, Children, no_children, child, child_at, set_child, leaf_entry,
  dir_entry, insert_node, balance, balance-Returns, build_node, build_children,
}

-- A directory whose children can be built; it may have none.
abbrev pub AllBuildable : GroupBuilderNode → Type 0
AllBuildable (directory children) =
    (nodes : List GroupNode) × (build_children children ≡ some nodes)
AllBuildable (leaf _) = Unit {0}

abbrev pub Buildable : GroupBuilderNode → Type 0
Buildable node = (g : GroupNode) × (build_node node ≡ some g)

directory-Buildable :
    (children : Children) (a : GroupNode) (nodes : List GroupNode)
    → build_children children ≡ some (a ∷ nodes)
    → Buildable (directory children)
unfolding build_node
directory-Buildable content a nodes e =
    elim (Option-cases (balance (length (a ∷ nodes)) (a ∷ nodes))) [
      | inl n ↦ absurd (
          subst (Returns (λ _. Unit {0})) n
            (balance-Returns (length (a ∷ nodes)) a nodes (ground arith)))
      | inr (g, f) ↦ (g, ground (arith, e, f))
    ]

pub Buildable-AllBuildable : (node : GroupBuilderNode) → Buildable node → AllBuildable node
unfolding build_node
Buildable-AllBuildable (leaf _) b = tt
Buildable-AllBuildable (directory children) (g, e) = elim (Option-cases (build_children children)) [
  | inl n ↦ absurd (cc)
  | inr p ↦ p
]

set_child-built :
    (name : Bytes) (node : GroupBuilderNode) (v : GroupNode) (children : Children)
    (nodes : List GroupNode)
    → build_node node ≡ some v
    → build_children children ≡ some nodes
    → (a : GroupNode) × (rest : List GroupNode) × (build_children (set_child name node children)
        ≡ some (a ∷ rest))
unfolding set_child build_children
set_child-built name node v no_children nodes b e = (labeled 0 name v, [], ground (arith, b))
set_child-built name node v (child other old children) nodes b e =
    elim (Option-cases (build_node old)) [
      | inl n ↦ absurd (cc)
      | inr (w, f) ↦ elim (Option-cases (build_children children)) [
        | inl n ↦ absurd (cc)
        | inr (ws, g) ↦ elim (Ordering-cases (cmp_bytes name other)) [
          | inl c ↦ (labeled 0 name v, labeled 0 other w ∷ ws, ground (arith, b, c, f, g))
          | inr (inl c) ↦ (labeled 0 name v, ws, ground (arith, b, c, g))
          | inr (inr c) ↦
              let (a, rest, h) = set_child-built name node v children ws b g in
              (labeled 0 other w, a ∷ rest, ground (arith, c, f, h))
        ]
      ]
    ]

set_child-Buildable :
    (name : Bytes) (node : GroupBuilderNode) (children : Children)
    → Buildable node
    → AllBuildable (directory children)
    → Buildable (directory (set_child name node children))
set_child-Buildable name node children (v, b) (nodes, e) =
    let (a, rest, f) = set_child-built name node v children nodes b e in
    directory-Buildable (set_child name node children) a rest f

-- What the path goes on to can be built, as far as it is there.
dir_entry-AllBuildable :
    (name : Bytes) (children : Children)
    → AllBuildable (directory children)
    → AllBuildable (dir_entry (child_at name children))
unfolding dir_entry child_at build_children
dir_entry-AllBuildable name no_children b = ([], refl)
dir_entry-AllBuildable name (child other old children) (nodes, e) =
    elim (Option-cases (build_node old)) [
      | inl n ↦ absurd (cc)
      | inr (w, f) ↦ elim (Option-cases (build_children children)) [
        | inl n ↦ absurd (cc)
        | inr p ↦
            let at : (o : Option GroupBuilderNode)
                → AllBuildable (dir_entry o)
                → o ≡ child_at name (child other old children)
                → AllBuildable (dir_entry (child_at name (child other old children))) =
              λ o h same. subst (λ x. AllBuildable (dir_entry x)) same h in
            elim (Ordering-cases (cmp_bytes name other)) [
              | inl c ↦ at none ([], refl) (ground (arith, c))
              | inr (inl c) ↦ at (some old) (Buildable-AllBuildable old (w, f)) (ground (arith, c))
              | inr (inr c) ↦
                  at (child_at name children) (dir_entry-AllBuildable name children p)
                    (ground (arith, c))
            ]
      ]
    ]

pub insert_node-Buildable :
    (path : List Bytes) (tid : ℕ) (node node' : GroupBuilderNode)
    → AllBuildable node
    → insert_node path tid node ≡ some node'
    → Buildable node'
unfolding insert_node leaf_entry build_node
insert_node-Buildable _ tid (leaf _) node' b e = absurd (cc)
insert_node-Buildable [] tid (directory _) node' b e = absurd (cc)
insert_node-Buildable (name ∷ []) tid (directory children) node' b e =
    let made : directory (set_child name (leaf tid) children) ≡ node' =
      ground (arith, e, Option-cases (child_at name children)) in
    subst Buildable made
      (set_child-Buildable name (leaf tid) children (GroupNode.leaf 0 tid, refl) b)
insert_node-Buildable (name ∷ next ∷ path) tid (directory children) node' b e =
    let old = dir_entry (child_at name children) in
    elim (Option-cases (insert_node (next ∷ path) tid old)) [
      | inl n ↦ absurd (cc)
      | inr (new, f) ↦
          let made : directory (set_child name new children) ≡ node' = ground (arith, e, f) in
          let inner =
            insert_node-Buildable (next ∷ path) tid old new (dir_entry-AllBuildable name children b)
              f in
          subst Buildable made (set_child-Buildable name new children inner b)
    ]
