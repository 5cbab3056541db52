-- ===== src/Certified/Group/Built.antt =====
-- A ray that is built from a group's own paths, and its witness.
use ic_kit.Base.{
  ℕ, ◌≡◌, ◌≢◌, ◌⊎◌, ◌∙◌, refl, sym, ap, subst, inl, inr, none, some, List, [], ◌∷◌, true, ◌==◌,
  arith, Bool-cases, Option-cases, Returns, Returns-bind,
}
use ic_kit.Dict.{find, put, member, add, find-put}
use ic_kit.Certified.HashTree.{Sha256, HashTree, reconstruct}
use ic_kit.Certified.Label.{AsHashTree}
use ic_kit.Certified.Group.{
  Group, Ray, init, new_ray, visit_all, partial, root_hash, group_root_hash, build,
}
use ic_kit.Certified.Group.Leaves.{Numbered, Complete}
use ic_kit.Certified.Group.Paths.{Visited, Under, AllUnder, visit_node-Visited}
use ic_kit.Certified.Group.Sound.{Certified, Ready, FitsPair, witness-Fits}

member-visit_all :
    (i : ℕ) (deps to_visit : List ℕ)
    → member i (visit_all deps to_visit) ≡ true
    → (member i deps ≡ true) ⊎ (member i to_visit ≡ true)
unfolding visit_all member add
member-visit_all i [] to_visit e = inr e
member-visit_all i (dep ∷ deps) to_visit e = elim (member-visit_all i deps (add dep to_visit) e) [
  | inl f ↦ inl (ground arith)
  | inr f ↦ elim (Bool-cases (dep == i)) [ inl g ↦ inl (ground arith) | inr g ↦ inr (ground arith) ]
]

nothing-Under : Under 0 []
unfolding member
nothing-Under i m = absurd (ground arith)

nothing_all : AllUnder 0 []
unfolding find
nothing_all tid p e i m = absurd (ground arith)

module _ ⦃s : Sha256⦄ {V : Type 0} ⦃tree : AsHashTree V⦄ where
  -- A ray of the group to which trees of leaves were added, each with the root hash of the leaf's value.
  pub data Built (group : Group V) : Ray V → Type 0 where
    start : Built group (new_ray group)
    adds :
        {ray after : Ray V} (tid : ℕ) (f : V → HashTree)
        → Built group ray
        → ((value : V) → reconstruct (f value) ≡ tree.root_hash value)
        → partial tid f ray ≡ some after
        → Built group after

  partial-Certified :
      (tid : ℕ) (f : V → HashTree) (ray after : Ray V)
      → ((value : V) → reconstruct (f value) ≡ tree.root_hash value)
      → partial tid f ray ≡ some after
      → Certified ray
      → Certified after
  unfolding partial
  partial-Certified tid f ray after fits e certified =
      elim (Option-cases (find tid ray.group.dependencies)) [
        | inl d ↦ absurd (ground arith)
        | inr (deps, d) ↦ elim (Option-cases (find tid ray.group.values)) [
          | inl g ↦ absurd (ground arith)
          | inr (value, g) ↦ λ i t h. elim (Bool-cases (tid == i)) [
            | inl here ↦ (
              value,
              ground arith,
              ground (arith, find-put i tid (f value) ray.leaves, fits value),
            )
            | inr other ↦
                let (v, p, q) =
                  certified i t (ground (arith, find-put i tid (f value) ray.leaves)) in
                (v, ground arith, q)
          ]
        ]
      ]

  -- What the ray visits are the paths of the leaves that it has trees for.
  record Follows (group : Group V) (ray : Ray V) : Type 0 where
    same : ray.group ≡ group
    certified : Certified ray
    visits :
        (i : ℕ)
        → member i ray.to_visit ≡ true
        → (tid : ℕ) × (p : List ℕ) × (find tid group.dependencies ≡ some p)
          × (member i p ≡ true)
          × (find tid ray.leaves ≢ none)

  adds-Follows :
      (group : Group V) (ray after : Ray V) (tid : ℕ) (f : V → HashTree)
      → ((value : V) → reconstruct (f value) ≡ tree.root_hash value)
      → partial tid f ray ≡ some after
      → Follows group ray
      → Follows group after
  unfolding partial
  adds-Follows group ray after tid f fits e follows =
      elim (Option-cases (find tid ray.group.dependencies)) [
        | inl d ↦ absurd (ground arith)
        | inr (deps, d) ↦ elim (Option-cases (find tid ray.group.values)) [
          | inl g ↦ absurd (ground arith)
          | inr (value, g) ↦
              let leaves : after.leaves ≡ put tid (f value) ray.leaves = ground arith in
              let visited : after.to_visit ≡ visit_all deps ray.to_visit = ground arith in
              let group_of : after.group ≡ ray.group = ground arith in
              let own : find tid group.dependencies ≡ some deps =
                ap (λ (x : Group V). find tid x.dependencies) (sym follows.same) ∙ d in
              record {
                same = group_of ∙ follows.same;
                certified = partial-Certified tid f ray after fits e follows.certified;
                visits = λ i m.
                    elim (member-visit_all i deps ray.to_visit (ap (member i) (sym visited) ∙ m)) [
                      | inl k ↦ (
                        tid,
                        deps,
                        own,
                        k,
                        λ none_there.
                            ground
                              (arith, find-put tid tid (f value) ray.leaves, ap (find tid) leaves),
                      )
                      | inr k ↦
                          let (t, p, a, b, c) = follows.visits i k in
                          (
                            t,
                            p,
                            a,
                            b,
                            λ none_there.
                                ground (
                                  arith,
                                  find-put t tid (f value) ray.leaves,
                                  ap (find t) leaves,
                                  c,
                                ),
                          )
                    ];
              }
        ]
      ]

  new_ray-Follows : (group : Group V) → Follows group (new_ray group)
  unfolding new_ray find member
  new_ray-Follows group = record {
    same = refl;
    certified = λ tid t e. absurd (ground arith);
    visits = λ i m. absurd (ground arith);
  }

  Built-Follows : {group : Group V} {ray : Ray V} → Built group ray → Follows group ray
  Built-Follows start = new_ray-Follows _
  Built-Follows {group} (adds {ray} {after} tid f b fits e) =
      adds-Follows group ray after tid f fits e (Built-Follows b)

  init-Visited :
      (group : Group V) → (hi : ℕ) × Visited 0 [] [] (init group).root (init group).dependencies hi
  unfolding init
  init-Visited group = (_, visit_node-Visited group.root 0 [] [] nothing-Under nothing_all)

  Follows-Ready :
      (group : Group V) (ray : Ray V) (hi : ℕ)
      → Visited 0 [] [] group.root group.dependencies hi
      → Follows group ray
      → Ready group.root ray
  Follows-Ready group ray hi v follows = record {
    certified = follows.certified;
    supplied = λ id tid k m e.
        let (t, p, a, b, c) = follows.visits id m in
        let same = (v.leads t p a id tid k b).0 in c (ap (λ x. find x ray.leaves) (sym same) ∙ e);
    single = λ id id' tid k k' m m'.
        let (t, p, a, b, c) = follows.visits id m in
        let (t', p', a', b', c') = follows.visits id' m' in
        let lead = v.leads t p a id tid k b in
        let lead' = v.leads t' p' a' id' tid k' b' in
        let types : t' ≡ t = sym lead'.0 ∙ lead.0 in
        let paths : p' ≡ p = ground (arith, ap (λ x. find x group.dependencies) types) in
        lead.1 id' tid k' (ap (member id') (sym paths) ∙ b');
  }

  -- A ray of a group whose leaves have values, to which trees of leaves were added, each with the root hash of
  -- the leaf's value, is built into a witness without a panic, and the witness has the group's root hash.
  pub build-root_hash :
      (group : Group V) (ray : Ray V)
      → Complete (init group).root (init group)
      → Built (init group) ray
      → Returns (λ t. group_root_hash (init group) ≡ some (reconstruct t)) (build ray)
  unfolding build group_root_hash
  build-root_hash group ray complete built =
      let follows = Built-Follows built in
      let (hi, v) = init-Visited group in
      Returns-bind (FitsPair ray.group.root ray) _ _ _
        (witness-Fits ray.group.root ray 0 hi
          (subst (λ (g : Group V). Numbered g.root 0 hi) (sym follows.same) v.numbered)
          (subst (λ (g : Group V). Complete g.root g) (sym follows.same) complete)
          (subst (λ (g : Group V). Ready g.root ray) (sym follows.same)
            (Follows-Ready (init group) ray hi v follows)))
        λ (t, after) fits. ap (λ (g : Group V). root_hash g.root g) (sym follows.same) ∙ fits.hash
