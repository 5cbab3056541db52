-- ===== src/Certified/Group/Shown.antt =====
-- Which leaves a group that is built from directories has under which labels.
use ic_kit.Base.{
  ℕ, zero, suc, ◌≡◌, subst, some, List, [], ◌∷◌, Option-cases, Ordering-cases, inl, inr, length,
  arith,
}
use ic_kit.Certified.HashTree.{Bytes}
use ic_kit.Certified.ByteKeys.{cmp_bytes, eq_of_cmp_bytes}
use ic_kit.Certified.Group.{GroupNode, fork, labeled, leaf}
use ic_kit.Certified.Group.Builder.{
  GroupBuilderNode, directory, Children, no_children, child, child_at, join_pairs, balance,
  build_node, build_children,
}
use ic_kit.Certified.Group.Directories.{leaf_at}

-- A node has a leaf of a type under labels.
pub data LeafUnder : List Bytes → ℕ → GroupNode → Type 0 where
  at_leaf : {id t : ℕ} → LeafUnder [] t (leaf id t)
  at_label :
      {id t : ℕ} {name : Bytes} {path : List Bytes} {node : GroupNode}
      → LeafUnder path t node
      → LeafUnder (name ∷ path) t (labeled id name node)
  at_left :
      {id t : ℕ} {path : List Bytes} {left right : GroupNode}
      → LeafUnder path t left
      → LeafUnder path t (fork id left right)
  at_right :
      {id t : ℕ} {path : List Bytes} {left right : GroupNode}
      → LeafUnder path t right
      → LeafUnder path t (fork id left right)

-- One of the nodes has it.
data Some (path : List Bytes) (t : ℕ) : List GroupNode → Type 0 where
  here :
      {node : GroupNode} {nodes : List GroupNode}
      → LeafUnder path t node
      → Some path t (node ∷ nodes)
  later :
      {node : GroupNode} {nodes : List GroupNode} → Some path t nodes → Some path t (node ∷ nodes)

join_pairs-Some :
    (path : List Bytes) (t : ℕ) (nodes : List GroupNode)
    → Some path t nodes
    → Some path t (join_pairs nodes)
unfolding join_pairs
join_pairs-Some path t [] s = elim s [ ]
join_pairs-Some path t (a ∷ []) s = s
join_pairs-Some path t (a ∷ b ∷ nodes) (here u) = here (at_left u)
join_pairs-Some path t (a ∷ b ∷ nodes) (later (here u)) = here (at_right u)
join_pairs-Some path t (a ∷ b ∷ nodes) (later (later s)) = later (join_pairs-Some path t nodes s)

balance-LeafUnder :
    (fuel : ℕ) (path : List Bytes) (t : ℕ) (nodes : List GroupNode) (node : GroupNode)
    → balance fuel nodes ≡ some node
    → Some path t nodes
    → LeafUnder path t node
unfolding balance
balance-LeafUnder fuel path t [] node e s = elim s [ ]
balance-LeafUnder fuel path t (a ∷ []) node e (later s) = elim s [ ]
balance-LeafUnder fuel path t (a ∷ []) node e (here u) = subst (LeafUnder path t) (ground arith) u
balance-LeafUnder zero path t (a ∷ b ∷ nodes) node e s = absurd (cc)
balance-LeafUnder (suc fuel) path t (a ∷ b ∷ nodes) node e s =
    balance-LeafUnder fuel path t (join_pairs (a ∷ b ∷ nodes)) node e
      (join_pairs-Some path t (a ∷ b ∷ nodes) s)

-- The group that is built from directories has each of their leaves under the labels of its path.
mutual
  unfolding build_node build_children leaf_at child_at

  pub build_node-LeafUnder :
      (path : List Bytes) (t : ℕ) (node : GroupBuilderNode) (g : GroupNode)
      → build_node node ≡ some g
      → leaf_at path node ≡ some t
      → LeafUnder path t g
  build_node-LeafUnder [] t (GroupBuilderNode.leaf tid) g e l =
      subst (LeafUnder [] t) (ground arith) (at_leaf {id = 0})
  build_node-LeafUnder [] t (directory _) g e l = absurd (cc)
  build_node-LeafUnder (_ ∷ _) t (GroupBuilderNode.leaf _) g e l = absurd (cc)
  build_node-LeafUnder (name ∷ path) t (directory children) g e l =
      elim (Option-cases (build_children children)) [
        | inl n ↦ absurd (cc)
        | inr (nodes, f) ↦
            balance-LeafUnder (length nodes) (name ∷ path) t nodes g (ground (arith, e, f))
              (build_children-Some name path t children nodes f l)
      ]

  build_children-Some :
      (name : Bytes) (path : List Bytes) (t : ℕ) (children : Children) (nodes : List GroupNode)
      → build_children children ≡ some nodes
      → leaf_at (name ∷ path) (directory children) ≡ some t
      → Some (name ∷ path) t nodes
  build_children-Some name path t no_children nodes e l = absurd (cc)
  build_children-Some name path t (child other node children) nodes e l =
      elim (Option-cases (build_node node)) [
        | inl n ↦ absurd (cc)
        | inr (v, f) ↦ elim (Option-cases (build_children children)) [
          | inl n ↦ absurd (cc)
          | inr (vs, h) ↦
              let made : labeled 0 other v ∷ vs ≡ nodes = ground (arith, e, f, h) in
              subst (Some (name ∷ path) t) made (elim (Ordering-cases (cmp_bytes name other)) [
                | inl c ↦ absurd (cc)
                | inr (inl c) ↦ here (
                    subst (λ x. LeafUnder (name ∷ path) t (labeled 0 x v))
                      (eq_of_cmp_bytes name other c)
                      (at_label (build_node-LeafUnder path t node v f (ground (arith, c, l)))))
                | inr (inr c) ↦
                    later (build_children-Some name path t children vs h (ground (arith, c, l)))
              ])
        ]
      ]
