-- ===== src/Certified/Group/Leaves.antt =====
-- The leaves of a group with their ids and types, and which numbers the nodes have.
use ic_kit.Base.{ℕ, suc, ◌≤◌, ◌<◌, ◌≡◌, ◌≢◌, ◌⊎◌, inl, inr, none, arith}
use ic_kit.Dict.{find}
use ic_kit.Certified.Group.{GroupNode, fork, labeled, leaf, Group}

-- The node has a leaf with the id `id`, of the type `tid`.
abbrev pub LeafIn : ℕ → ℕ → GroupNode → Type 0
LeafIn id tid (fork _ left right) = LeafIn id tid left ⊎ LeafIn id tid right
LeafIn id tid (labeled _ _ node) = LeafIn id tid node
LeafIn id tid (leaf i t) = (id ≡ i) × (tid ≡ t)

-- The nodes have the numbers from `lo` up to `hi`, each before the nodes below it.
abbrev pub Numbered : GroupNode → ℕ → ℕ → Type 0
Numbered (fork i left right) lo hi =
    (i ≡ lo) × ((mid : ℕ) × Numbered left (suc lo) mid × Numbered right mid hi)
Numbered (labeled i _ node) lo hi = (i ≡ lo) × Numbered node (suc lo) hi
Numbered (leaf i _) lo hi = (i ≡ lo) × (hi ≡ suc lo)

-- Every leaf has a value of its type.
abbrev pub Complete : {V : Type 0} → GroupNode → Group V → Type 0
Complete (fork _ left right) group = Complete left group × Complete right group
Complete (labeled _ _ node) group = Complete node group
Complete (leaf _ tid) group = find tid group.values ≢ none

pub Numbered-lt : (node : GroupNode) (lo hi : ℕ) → Numbered node lo hi → lo < hi
Numbered-lt (fork i left right) lo hi (e, (mid, l, r)) =
    omega (arith, Numbered-lt left (suc lo) mid l, Numbered-lt right mid hi r)
Numbered-lt (labeled i _ node) lo hi (e, n) = omega (arith, Numbered-lt node (suc lo) hi n)
Numbered-lt (leaf i _) lo hi (e, n) = omega arith

pub LeafIn-between :
    (node : GroupNode) (lo hi id tid : ℕ)
    → Numbered node lo hi
    → LeafIn id tid node
    → (lo ≤ id) × (id < hi)
LeafIn-between (fork i left right) lo hi id tid (e, (mid, l, r)) (inl k) =
    let b = LeafIn-between left (suc lo) mid id tid l k in
    (omega arith, omega (arith, Numbered-lt right mid hi r))
LeafIn-between (fork i left right) lo hi id tid (e, (mid, l, r)) (inr k) =
    let b = LeafIn-between right mid hi id tid r k in
    (omega (arith, Numbered-lt left (suc lo) mid l), omega arith)
LeafIn-between (labeled i _ node) lo hi id tid (e, n) k =
    let b = LeafIn-between node (suc lo) hi id tid n k in (omega arith, omega arith)
LeafIn-between (leaf i _) lo hi id tid (e, n) (a, b) = (omega arith, omega arith)
