-- ===== src/Certified/Group/Paths.antt =====
-- What `visit_node` of group.rs assigns: numbers in order, and for each type the path to one leaf of it.
use ic_kit.Base.{
  ℕ, suc, ◌<◌, ◌≡◌, ◌⊎◌, ◌∙◌, refl, sym, ap, inl, inr, some, List, [], ◌∷◌, ◌++◌, true, ◌==◌,
  if◌then◌else◌, arith, Bool-cases,
}
use ic_kit.Dict.{Dict, find, member, find-put}
use ic_kit.Certified.HashTree.{Bytes}
use ic_kit.Certified.Group.{GroupNode, fork, labeled, leaf, visit_node}
use ic_kit.Certified.Group.Leaves.{LeafIn, Numbered, Numbered-lt, LeafIn-between}

member-append :
    (i id : ℕ) (path : List ℕ)
    → member i (path ++ id ∷ []) ≡ (if member i path then true else id == i)
unfolding member
member-append i id [] = ground arith
member-append i id (j ∷ path) = ground (arith, member-append i id path)

-- A path leads to leaves of one type, by one id, of all those of the node.
abbrev pub Leads : ℕ → List ℕ → GroupNode → Type 0
Leads tid path node =
    (id t : ℕ)
    → LeafIn id t node
    → member id path ≡ true
    → (t ≡ tid) × ((id' t' : ℕ) → LeafIn id' t' node → member id' path ≡ true → id ≡ id')

-- What comes of the visit to a node.
pub record Visited (lo : ℕ) (path : List ℕ) (old : Dict (List ℕ)) (node : GroupNode)
    (deps : Dict (List ℕ)) (hi : ℕ) : Type 0 where
  pub numbered : Numbered node lo hi
  pub below : (tid : ℕ) (p : List ℕ) → find tid deps ≡ some p → (i : ℕ) → member i p ≡ true → i < hi
  pub leads : (tid : ℕ) (p : List ℕ) → find tid deps ≡ some p → Leads tid p node
  pub fresh :
      (tid : ℕ) (p : List ℕ)
      → find tid deps ≡ some p
      → (find tid old ≡ some p) ⊎ ((i : ℕ) → member i p ≡ true → i < lo → member i path ≡ true)

-- The numbers of a path, and of all paths, are below a number.
abbrev pub Under : ℕ → List ℕ → Type 0
Under lo path = (i : ℕ) → member i path ≡ true → i < lo

abbrev pub AllUnder : ℕ → Dict (List ℕ) → Type 0
AllUnder lo deps = (tid : ℕ) (p : List ℕ) → find tid deps ≡ some p → Under lo p

Under-append : (lo : ℕ) (path : List ℕ) → Under lo path → Under (suc lo) (path ++ lo ∷ [])
Under-append lo path u i e = ground (arith, member-append i lo path, u i)

labeled-Visited :
    (lo hi : ℕ) (label : Bytes) (path : List ℕ) (old deps : Dict (List ℕ)) (node : GroupNode)
    → Visited (suc lo) (path ++ lo ∷ []) old node deps hi
    → Visited lo path old (labeled lo label node) deps hi
labeled-Visited lo hi label path old deps node v = record {
  numbered = (refl, v.numbered);
  below = v.below;
  leads = v.leads;
  fresh = λ tid p e. elim (v.fresh tid p e) [
    | inl o ↦ inl o
    | inr f ↦ inr λ i m l. ground (arith, f i m, member-append i lo path)
  ];
}

module _ (lo mid hi : ℕ) (path : List ℕ) (old deps deps' : Dict (List ℕ)) (left right : GroupNode)
    (u : Under lo path) (l : Visited (suc lo) (path ++ lo ∷ []) old left deps mid)
    (r : Visited mid (path ++ lo ∷ []) deps right deps' hi) where
  -- A path that meets a leaf of the left side was there before the visit to the right one.
  from_left :
      (tid : ℕ) (p : List ℕ)
      → find tid deps' ≡ some p
      → (id t : ℕ) → LeafIn id t left
      → member id p ≡ true
      → find tid deps ≡ some p
  from_left tid p e id t k m =
      let b = LeafIn-between left (suc lo) mid id t l.numbered k in
      elim (r.fresh tid p e) [
        | inl o ↦ o
        | inr f ↦ absurd (ground (arith, f id m, Under-append lo path u id))
      ]

  -- No path meets leaves of both sides.
  not_both :
      (tid : ℕ) (p : List ℕ)
      → find tid deps' ≡ some p
      → (id t id' t' : ℕ) → LeafIn id t left
      → LeafIn id' t' right
      → member id p ≡ true
      → member id' p ≡ true
      → ⊥
  not_both tid p e id t id' t' k k' m m' =
      let b = LeafIn-between right mid hi id' t' r.numbered k' in
      let c = l.below tid p (from_left tid p e id t k m) id' m' in omega arith

  fork-Leads : (tid : ℕ) (p : List ℕ) → find tid deps' ≡ some p → Leads tid p (fork lo left right)
  fork-Leads tid p e id t (inl k) m =
      let lead = l.leads tid p (from_left tid p e id t k m) id t k m in
      (
        lead.0,
        λ id' t' k' m'. elim k' [
          | inl h ↦ lead.1 id' t' h m'
          | inr h ↦ absurd (not_both tid p e id t id' t' k h m m')
        ],
      )
  fork-Leads tid p e id t (inr k) m =
      let lead = r.leads tid p e id t k m in
      (
        lead.0,
        λ id' t' k' m'. elim k' [
          | inl h ↦ absurd (not_both tid p e id' t' id t h k m' m)
          | inr h ↦ lead.1 id' t' h m'
        ],
      )

  fork-Visited : Visited lo path old (fork lo left right) deps' hi
  fork-Visited = record {
    numbered = (refl, (mid, l.numbered, r.numbered));
    below = r.below;
    leads = fork-Leads;
    fresh = λ tid p e.
        let q = Numbered-lt left (suc lo) mid l.numbered in
        elim (r.fresh tid p e) [
          | inl o ↦ elim (l.fresh tid p o) [
            | inl o' ↦ inl o'
            | inr f ↦ inr λ i m b. ground (arith, f i m, member-append i lo path)
          ]
          | inr f ↦ inr λ i m b. ground (arith, f i m, member-append i lo path)
        ];
  }

pub visit_node-Visited :
    (node : GroupNode) (lo : ℕ) (old : Dict (List ℕ)) (path : List ℕ)
    → Under lo path
    → AllUnder lo old
    → let (node', deps, hi) = visit_node node lo old path in Visited lo path old node' deps hi
unfolding visit_node
visit_node-Visited (leaf _ tid) lo old path u all = record {
  numbered = (refl, omega arith);
  below = λ t p e i m. elim (Bool-cases (tid == t)) [
    | inl f ↦
        let new : path ++ lo ∷ [] ≡ p = ground (arith, find-put t tid (path ++ lo ∷ []) old) in
        ground (arith, member-append i lo path, u i, ap (member i) new)
    | inr f ↦ ground (
      arith,
      find-put t tid (path ++ lo ∷ []) old,
      all t p (ground (arith, find-put t tid (path ++ lo ∷ []) old)) i m,
    )
  ];
  leads = λ t p e id k (at, is) m. (
    elim (Bool-cases (tid == t)) [
      | inl f ↦ ground arith
      | inr f ↦
          absurd
            (ground (arith, all t p (ground (arith, find-put t tid (path ++ lo ∷ []) old)) id m))
    ],
    λ id' t' (at', is') m'. at ∙ sym at',
  );
  fresh = λ t p e. elim (Bool-cases (tid == t)) [
    | inl f ↦ inr λ i m l.
        let new : path ++ lo ∷ [] ≡ p = ground (arith, find-put t tid (path ++ lo ∷ []) old) in
        ground (arith, member-append i lo path, ap (member i) new)
    | inr f ↦ inl (ground (arith, find-put t tid (path ++ lo ∷ []) old))
  ];
}
visit_node-Visited (labeled _ label node) lo old path u all =
    let v =
      visit_node-Visited node (suc lo) old (path ++ lo ∷ []) (Under-append lo path u)
        (λ tid p e i m. let b = all tid p e i m in omega arith) in
    labeled-Visited lo _ label path old _ _ v
visit_node-Visited (fork _ left right) lo old path u all =
    let l =
      visit_node-Visited left (suc lo) old (path ++ lo ∷ []) (Under-append lo path u)
        (λ tid p e i m. let b = all tid p e i m in omega arith) in
    let (left', deps, mid) = visit_node left (suc lo) old (path ++ lo ∷ []) in
    let q = Numbered-lt left' (suc lo) mid l.numbered in
    let r =
      visit_node-Visited right mid deps (path ++ lo ∷ [])
        (λ i m. let b = Under-append lo path u i m in omega arith) l.below in
    fork-Visited lo mid _ path old deps _ left' _ u l r
