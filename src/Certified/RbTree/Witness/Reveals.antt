-- ===== src/Certified/RbTree/Witness/Reveals.antt =====
-- What the witness of a key reveals: the key's label over the tree of its value.
use ic_kit.Base.{◌≡◌, Returns, Option, none, some, inl, inr, Ordering-cases, Option-cases}
use ic_kit.Certified.HashTree.{Bytes, Sha256, HashTree, empty, fork, labeled, leaf, pruned}
use ic_kit.Certified.Label.{Label, AsHashTree}
use ic_kit.Certified.RbTree.Node.{Node, null, node, three_way_fork, data_hash}
use ic_kit.Certified.RbTree.Insert.{RbTree, get_from, get}
use ic_kit.Certified.RbTree.Witness.{lookup_from, nested_witness, left_hash_tree, right_hash_tree}

-- `Reveals l c w`: going down forks alone, `w` has the label `l` over the tree `c`.
pub data Reveals (l : Bytes) (c : HashTree) : HashTree → Type 0 where
  here : Reveals l c (labeled l c)
  leftward : {a b : HashTree} → Reveals l c a → Reveals l c (fork a b)
  rightward : {a b : HashTree} → Reveals l c b → Reveals l c (fork a b)

module _ ⦃s : Sha256⦄ (l : Bytes) (c : HashTree) where
  Reveals-fork_middle : (a b : HashTree) → Reveals l c (three_way_fork a (labeled l c) b)
  unfolding three_way_fork
  Reveals-fork_middle empty empty = here
  Reveals-fork_middle empty _ = leftward here
  Reveals-fork_middle _ empty = rightward here
  Reveals-fork_middle _ _ = rightward (leftward here)

  Reveals-fork_left :
      (a b : HashTree) (h : Bytes) → Reveals l c a → Reveals l c (three_way_fork a (pruned h) b)
  unfolding three_way_fork
  Reveals-fork_left empty b h r = elim r [ ]
  Reveals-fork_left (leaf _) b h r = elim r [ ]
  Reveals-fork_left (pruned _) b h r = elim r [ ]
  Reveals-fork_left (fork x y) empty h r = leftward r
  Reveals-fork_left (fork x y) (pruned _) h r = leftward r
  Reveals-fork_left (fork x y) _ h r = leftward r
  Reveals-fork_left (labeled x y) empty h r = leftward r
  Reveals-fork_left (labeled x y) (pruned _) h r = leftward r
  Reveals-fork_left (labeled x y) _ h r = leftward r

  Reveals-fork_right :
      (a b : HashTree) (h : Bytes) → Reveals l c b → Reveals l c (three_way_fork a (pruned h) b)
  unfolding three_way_fork
  Reveals-fork_right a empty h r = elim r [ ]
  Reveals-fork_right a (leaf _) h r = elim r [ ]
  Reveals-fork_right a (pruned _) h r = elim r [ ]
  Reveals-fork_right empty (fork x y) h r = rightward r
  Reveals-fork_right (pruned _) (fork x y) h r = rightward (rightward r)
  Reveals-fork_right _ (fork x y) h r = rightward (rightward r)
  Reveals-fork_right empty (labeled x y) h r = rightward r
  Reveals-fork_right (pruned _) (labeled x y) h r = rightward (rightward r)
  Reveals-fork_right _ (labeled x y) h r = rightward (rightward r)

module _ {K V : Type 0} ⦃s : Sha256⦄ ⦃label : Label K⦄ ⦃tree : AsHashTree V⦄ where
  -- The lookup and the witness agree on whether the key is there, and the witness reveals the value.
  abbrev Answers : (V → HashTree) → K → Option V → Option HashTree → Type 0
  Answers f key none none = Unit
  Answers f key (some v) (some w) = Reveals (label.as_label key) (f v) w
  Answers f key _ _ = ⊥

  Answers-step :
      (f : V → HashTree) (key : K) (wrap : HashTree → HashTree)
      → ((c w : HashTree)
          → Reveals (label.as_label key) c w
          → Reveals (label.as_label key) c (wrap w))
      → (got : Option V) (sub : Option HashTree) → Answers f key got sub
      → Answers f key got (elim sub [ none ↦ none | some w ↦ some (wrap w) ])
  Answers-step f key wrap up none none a = tt
  Answers-step f key wrap up (some v) (some w) a = up (f v) w a
  Answers-step f key wrap up none (some w) a = a
  Answers-step f key wrap up (some v) none a = a

  lookup_from-Answers :
      (f : V → HashTree) (key : K) (n : Node K V)
      → Answers f key (get_from key n) (lookup_from f key n)
  unfolding get_from lookup_from
  lookup_from-Answers f key null = tt
  lookup_from-Answers f key (node k v l r c h) = elim (Ordering-cases (label.cmp key k)) [
    | inl e ↦
        rw (e, get_from, lookup_from)
          (Answers-step f key (λ w. three_way_fork w (pruned (data_hash k v)) (right_hash_tree r))
            (λ c w. Reveals-fork_left _ c w _ _) (get_from key l) (lookup_from f key l)
            (lookup_from-Answers f key l))
    | inr (inl e) ↦
        rw (e, get_from, lookup_from, Answers)
          (rw (label.same key k e)
            (Reveals-fork_middle (label.as_label k) (f v) (left_hash_tree l) (right_hash_tree r)))
    | inr (inr e) ↦
        rw (e, get_from, lookup_from)
          (Answers-step f key (λ w. three_way_fork (left_hash_tree l) (pruned (data_hash k v)) w)
            (λ c w. Reveals-fork_right _ c _ w _) (get_from key r) (lookup_from f key r)
            (lookup_from-Answers f key r))
  ]

  -- The witness of a key that the tree holds reveals the key's label over what `f` shows of its value.
  pub nested_witness-Reveals :
      (f : V → HashTree) (key : K) (t : RbTree K V) {v : V}
      → get key t ≡ some v
      → Returns (Reveals (label.as_label key) (f v)) (nested_witness f key t)
  unfolding nested_witness get
  nested_witness-Reveals f key t {v} e = elim (Option-cases (lookup_from f key t.root)) [
    | inl o ↦ absurd (rw (e, o, Answers) at (lookup_from-Answers f key t.root))
    | inr (w, o) ↦ rw (o, nested_witness) (rw (e, o, Answers) at (lookup_from-Answers f key t.root))
  ]
