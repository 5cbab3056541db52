-- ===== src/Certified/Group/Sound.antt =====
-- The witness of a group: where the ray has a tree for each leaf that is visited, it is built, and has the
-- group's root hash.
use ic_kit.Base.{
  ℕ, suc, ◌≡◌, ◌≢◌, ◌∙◌, refl, sym, ap, subst, none, some, ◌>>=◌, ◌==◌, true, false, arith,
  Option-cases, Bool-cases, inl, inr, Returns, Returns-bind,
}
use ic_kit.Dict.{find, erase, member, find-erase}
use ic_kit.Certified.HashTree.{Bytes, Sha256, HashTree, reconstruct}
use ic_kit.Certified.Label.{AsHashTree}
use ic_kit.Certified.Group.{GroupNode, fork, labeled, leaf, Group, Ray, root_hash, prune, witness}
use ic_kit.Certified.Group.Leaves.{LeafIn, Numbered, Complete, LeafIn-between}

module _ ⦃s : Sha256⦄ {V : Type 0} ⦃tree : AsHashTree V⦄ where
  -- Each tree that the ray has for a leaf has the root hash of the leaf's value.
  abbrev pub Certified : Ray V → Type 0
  Certified ray =
      (tid : ℕ) (t : HashTree)
      → find tid ray.leaves ≡ some t
      → (value : V) × (find tid ray.group.values ≡ some value)
        × (reconstruct t ≡ tree.root_hash value)

  root_hash-Returns :
      (node : GroupNode) (group : Group V)
      → Complete node group
      → Returns (λ _. Unit {0}) (root_hash node group)
  unfolding root_hash
  root_hash-Returns (fork _ left right) group (l, r) =
      Returns-bind (λ _. Unit {0}) _ _ _ (root_hash-Returns left group l)
        λ _ _. Returns-bind (λ _. Unit {0}) _ _ _ (root_hash-Returns right group r) λ _ _. tt
  root_hash-Returns (labeled _ _ node) group c =
      Returns-bind (λ _. Unit {0}) _ _ _ (root_hash-Returns node group c) λ _ _. tt
  root_hash-Returns (leaf _ tid) group c = elim (Option-cases (find tid group.values)) [
    | inl e ↦ absurd (c e)
    | inr (value, e) ↦ rw e tt
  ]

  -- What the ray needs for a node: a tree for each leaf that is visited, no two of which have one type.
  pub record Ready (node : GroupNode) (ray : Ray V) : Type 0 where
    pub certified : Certified ray
    pub supplied :
        (id tid : ℕ)
        → LeafIn id tid node
        → member id ray.to_visit ≡ true
        → find tid ray.leaves ≢ none
    pub single :
        (id id' tid : ℕ)
        → LeafIn id tid node
        → LeafIn id' tid node
        → member id ray.to_visit ≡ true
        → member id' ray.to_visit ≡ true
        → id ≡ id'

  -- The tree of a node has its root hash. Of the ray's trees those of its visited leaves are gone.
  pub record Fits (node : GroupNode) (ray : Ray V) (t : HashTree) (after : Ray V) : Type 0 where
    pub hash : root_hash node ray.group ≡ some (reconstruct t)
    pub same_group : after.group ≡ ray.group
    pub same_visits : after.to_visit ≡ ray.to_visit
    pub fewer :
        (tid : ℕ) (x : HashTree) → find tid after.leaves ≡ some x → find tid ray.leaves ≡ some x
    pub rest :
        (tid : ℕ)
        → ((id : ℕ) → LeafIn id tid node → member id ray.to_visit ≡ false)
        → find tid after.leaves ≡ find tid ray.leaves

  abbrev pub FitsPair : GroupNode → Ray V → HashTree × Ray V → Type 0
  FitsPair node ray (t, after) = Fits node ray t after

  prune-Fits :
      (node : GroupNode) (ray : Ray V)
      → Complete node ray.group
      → Returns (FitsPair node ray) (prune node ray)
  unfolding prune reconstruct
  prune-Fits node ray c = elim (Option-cases (root_hash node ray.group)) [
    | inl e ↦ absurd (subst (Returns (λ _. Unit {0})) e (root_hash-Returns node ray.group c))
    | inr (hash, e) ↦ rw e (record {
      hash = e;
      same_group = refl;
      same_visits = refl;
      fewer = λ tid x f. f;
      rest = λ tid f. refl;
    })
  ]

  root_hash_fork :
      (id : ℕ) (left right : GroupNode) (group : Group V) (l r : HashTree)
      → root_hash left group ≡ some (reconstruct l)
      → root_hash right group ≡ some (reconstruct r)
      → root_hash (fork id left right) group ≡ some (reconstruct (HashTree.fork l r))
  unfolding root_hash reconstruct
  root_hash_fork id left right group l r e f = rw (e, f)

  root_hash_labeled :
      (id : ℕ) (label : Bytes) (node : GroupNode) (group : Group V) (t : HashTree)
      → root_hash node group ≡ some (reconstruct t)
      → root_hash (labeled id label node) group ≡ some (reconstruct (HashTree.labeled label t))
  unfolding root_hash reconstruct
  root_hash_labeled id label node group t e = rw e

  root_hash_leaf :
      (id tid : ℕ) (group : Group V) (value : V)
      → find tid group.values ≡ some value
      → root_hash (leaf id tid) group ≡ some (tree.root_hash value)
  unfolding root_hash
  root_hash_leaf id tid group value e = rw e

  leaf-Fits :
      (id tid : ℕ) (ray : Ray V) (t : HashTree)
      → Certified ray
      → member id ray.to_visit ≡ true
      → find tid ray.leaves ≡ some t
      → Fits (leaf id tid) ray t (record ray { leaves = erase tid ray.leaves })
  leaf-Fits id tid ray t certified e f =
      let (value, g, h) = certified tid t f in
      record {
        hash = root_hash_leaf id tid ray.group value g ∙ ap some (sym h);
        same_group = refl;
        same_visits = refl;
        fewer = λ i x k. ground (arith, find-erase i tid ray.leaves);
        rest = λ i k. elim (Bool-cases (tid == i)) [
          | inl same ↦ let at : i ≡ tid = ground arith in absurd (ground (arith, k id (refl, at)))
          | inr other ↦ ground (arith, find-erase i tid ray.leaves)
        ];
      }

  -- The ray that is left for the right side of a fork.
  right-Ready :
      (id : ℕ) (left right : GroupNode) (ray after : Ray V) (lo hi : ℕ) (l : HashTree)
      → Numbered (fork id left right) lo hi
      → Ready (fork id left right) ray
      → Fits left ray l after
      → Ready right after
  right-Ready id left right ray after lo hi l (_, (mid, m, n)) ready fits = record {
    certified = λ tid t e.
        let (value, f, g) = ready.certified tid t (fits.fewer tid t e) in
        (value, ap (λ (x : Group V). find tid x.values) fits.same_group ∙ f, g);
    supplied = λ i tid k v e.
        let visited : member i ray.to_visit ≡ true = ap (member i) (sym fits.same_visits) ∙ v in
        ready.supplied i tid (inr k) visited (
          sym (
            fits.rest tid λ j h. elim (Bool-cases (member j ray.to_visit)) [
              | inr no_visit ↦ no_visit
              | inl also ↦
                  let same = ready.single j i tid (inl h) (inr k) also visited in
                  let a = LeafIn-between left (suc lo) mid j tid m h in
                  let b = LeafIn-between right mid hi i tid n k in absurd (omega arith)
            ])
          ∙ e);
    single = λ i j tid h k v w.
        ready.single i j tid (inr h) (inr k) (ap (member i) (sym fits.same_visits) ∙ v)
          (ap (member j) (sym fits.same_visits) ∙ w);
  }

  fork-Fits :
      (id : ℕ) (left right : GroupNode) (ray mid after : Ray V) (l r : HashTree)
      → Fits left ray l mid
      → Fits right mid r after
      → Fits (fork id left right) ray (HashTree.fork l r) after
  fork-Fits id left right ray mid after l r f g = record {
    hash =
        root_hash_fork id left right ray.group l r f.hash
          (ap (root_hash right) (sym f.same_group) ∙ g.hash);
    same_group = g.same_group ∙ f.same_group;
    same_visits = g.same_visits ∙ f.same_visits;
    fewer = λ tid x e. f.fewer tid x (g.fewer tid x e);
    rest = λ tid k.
        g.rest tid (λ i h. ap (member i) f.same_visits ∙ k i (inr h))
        ∙ f.rest tid λ i h. k i (inl h);
  }

  witness_fork_lem :
      (id : ℕ) (left right : GroupNode) (ray : Ray V)
      → witness (fork id left right) ray ≡ (elim (member id ray.to_visit) [
        | false ↦ prune (fork id left right) ray
        | true ↦ do
          (l_tree, ray) ← witness left ray
          (r_tree, ray) ← witness right ray
          some (HashTree.fork l_tree r_tree, ray)
      ])
  unfolding witness
  witness_fork_lem id left right ray = refl

  witness_leaf_lem :
      (id tid : ℕ) (ray : Ray V)
      → witness (leaf id tid) ray ≡ (elim (member id ray.to_visit) [
        | false ↦ prune (leaf id tid) ray
        | true ↦ do t ← find tid ray.leaves; some (t, record ray { leaves = erase tid ray.leaves })
      ])
  unfolding witness
  witness_leaf_lem id tid ray = refl

  witness_labeled_lem :
      (id : ℕ) (label : Bytes) (node : GroupNode) (ray : Ray V)
      → witness (labeled id label node) ray ≡ (elim (member id ray.to_visit) [
        | false ↦ prune (labeled id label node) ray
        | true ↦ do (t, ray) ← witness node ray; some (HashTree.labeled label t, ray)
      ])
  unfolding witness
  witness_labeled_lem id label node ray = refl

  pub witness-Fits :
      (node : GroupNode) (ray : Ray V) (lo hi : ℕ)
      → Numbered node lo hi
      → Complete node ray.group
      → Ready node ray
      → Returns (FitsPair node ray) (witness node ray)
  witness-Fits (leaf id tid) ray lo hi n c ready = elim (Bool-cases (member id ray.to_visit)) [
    | inr e ↦ rw (witness_leaf_lem id tid ray, e) (prune-Fits (leaf id tid) ray c)
    | inl e ↦ elim (Option-cases (find tid ray.leaves)) [
      | inl f ↦ absurd (ready.supplied id tid (refl, refl) e f)
      | inr (t, f) ↦
          rw (witness_leaf_lem id tid ray, e, f) (leaf-Fits id tid ray t ready.certified e f)
    ]
  ]
  witness-Fits (labeled id label node) ray lo hi n c ready =
      elim (Bool-cases (member id ray.to_visit)) [
        | inr e ↦
            rw (witness_labeled_lem id label node ray, e) (prune-Fits (labeled id label node) ray c)
        | inl e ↦
            rw (witness_labeled_lem id label node ray, e)
              (Returns-bind (FitsPair node ray) _ _ _
                (witness-Fits node ray (suc lo) hi n.1 c (record {
                  certified = ready.certified;
                  supplied = ready.supplied;
                  single = ready.single;
                }))
                λ (t, after) fits. record {
                  hash = root_hash_labeled id label node ray.group t fits.hash;
                  same_group = fits.same_group;
                  same_visits = fits.same_visits;
                  fewer = fits.fewer;
                  rest = fits.rest;
                })
      ]
  witness-Fits (fork id left right) ray lo hi n c ready =
      elim (Bool-cases (member id ray.to_visit)) [
        | inr e ↦ rw (witness_fork_lem id left right ray, e) (prune-Fits (fork id left right) ray c)
        | inl e ↦
            rw (witness_fork_lem id left right ray, e)
              (Returns-bind (FitsPair left ray) _ _ _
                (witness-Fits left ray (suc lo) n.1.0 n.1.1 c.0 (record {
                  certified = ready.certified;
                  supplied = λ i tid k. ready.supplied i tid (inl k);
                  single = λ i j tid k h. ready.single i j tid (inl k) (inl h);
                }))
                λ (l, mid) f.
                  Returns-bind (FitsPair right mid) _ _ _
                    (witness-Fits right mid n.1.0 hi n.1.2
                      (subst (Complete right) (sym f.same_group) c.1)
                      (right-Ready id left right ray mid lo hi l n ready f))
                    λ (r, after) g. fork-Fits id left right ray mid after l r f g)
      ]
