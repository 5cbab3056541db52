-- ===== src/Certified/RbTree/Query/Laws.antt =====
-- `for_each`, `modify` and the prefix functions of rbtree.rs against the list of entries.
use Prim.Native.Nat.Ordering.{gt}
use mathlib.Core.Option.{or_else}
use ic_kit.Base.{
  if◌then◌else◌, ◌≡◌, refl, sym, ap, ◌∙◌, Bool, false, Option, none, some, List, [], ◌∷◌, ◌++◌,
  Ordering-cases, inl, inr, arith, length, All, All-imp,
}
use ic_kit.Certified.HashTree.{Sha256}
use ic_kit.Certified.Label.{Label, AsHashTree}
use ic_kit.Certified.Assoc.{
  Sorted, Sorted-split, Above, Below, find, put, find-append_lt, find-append_eq, find-append_gt,
  put-append_lt, put-append_eq, put-append_gt,
}
use ic_kit.Certified.Assoc.Laws.{put-Sorted, length-put}
use ic_kit.Certified.RbTree.Node.{Node, null, node, rehash}
use ic_kit.Certified.RbTree.Keeps.{entries, Hashed}
use ic_kit.Certified.RbTree.Insert.{RbTree}
use ic_kit.Certified.RbTree.Insert.Refines.{IsValid}
use ic_kit.Certified.RbTree.Query.{
  Prefix, visit, for_each, modify_from, modify, arm, here, leftward, rightward, max_entry_from,
  max_entry_with_prefix,
}

-- A closure called on each entry of a list in turn.
pub fold : {K V S : Type 0} → (K → V → S → S) → List (K × V) → S → S
fold f [] s = s
fold f ((k, v) ∷ m) s = fold f m (f k v s)

module _ {K V S : Type 0} (f : K → V → S → S) where
  fold-append : (a b : List (K × V)) (s : S) → fold f (a ++ b) s ≡ fold f b (fold f a s)
  unfolding fold
  fold-append [] b s = refl
  fold-append ((k, v) ∷ a) b s = fold-append a b (f k v s)

  visit-fold : (n : Node K V) (s : S) → visit f n s ≡ fold f (entries n) s
  unfolding visit fold
  visit-fold null s = refl
  visit-fold (node k v l r c h) s = rw (visit-fold l s, visit-fold r, fold-append (entries l)) refl

  -- `for_each` calls the closure on the entries from left to right, on each once.
  pub for_each-fold : (t : RbTree K V) (s : S) → for_each f t s ≡ fold f (entries t.root) s
  unfolding for_each
  for_each-fold t s = visit-fold t.root s

module _ {K V : Type 0} ⦃s : Sha256⦄ ⦃label : Label K⦄ ⦃tree : AsHashTree V⦄ {T : Type 0}
    (f : V → V × T) where
  -- What `go` of `modify` returns at `n`, by what the key reads there.
  pub record Changed (key : K) (n m : Node K V) (res : T) (v : V) : Type 0 where
    pub same : entries m ≡ put key (f v).0 (entries n)
    pub result : res ≡ (f v).1
    pub hashed : Hashed n → Hashed m

  -- Where the key is not there, the hashes that are computed anew are those that were there.
  abbrev Modified : K → Node K V → Option V → Node K V × Option T → Type 0
  Modified key n none (m, none) = Hashed n → m ≡ n
  Modified key n (some v) (m, some res) = Changed key n m res v
  Modified key n _ _ = ⊥

  Modified-step :
      (key : K) (l n : Node K V) (wrap : Node K V → Node K V)
      → (Hashed n → Hashed l × (wrap l ≡ n))
      → ((m : Node K V) (res : T) (v : V) → Changed key l m res v → Changed key n (wrap m) res v)
      → (got : Option V) (sub : Node K V × Option T) → Modified key l got sub
      → Modified key n got (wrap sub.0, sub.1)
  Modified-step key l n wrap same up none (m, none) a =
      λ hn. let (hl, e) = same hn in ap wrap (a hl) ∙ e
  Modified-step key l n wrap same up (some v) (m, some res) a = up m res v a
  Modified-step key l n wrap same up none (m, some res) a = a
  Modified-step key l n wrap same up (some v) (m, none) a = a

  modify_from-Modified :
      (key : K) (n : Node K V)
      → Sorted (entries n)
      → Modified key n (find key (entries n)) (modify_from key f n)
  unfolding modify_from find rehash
  modify_from-Modified key null h = λ hn. refl
  modify_from-Modified key (node k v l r c x) h =
      let a = Sorted-split (entries l) k v (entries r) h in
      let n = node k v l r c x in
      elim (Ordering-cases (label.cmp key k)) [
        | inl e ↦ rw (find-append_lt key k v (entries r) (entries l) e a.above) (
            rw (e, modify_from)
              (Modified-step key l n (λ m. rehash (node k v m r c x))
                (λ hn. (hn.0, ap (node k v l r c) (sym hn.2)))
                (λ m res w g. record {
                  same = rw g.same (sym (put-append_lt key k v (entries r) (f w).0 (entries l) e));
                  result = g.result;
                  hashed = λ hn. (g.hashed hn.0, hn.1, refl);
                })
                (find key (entries l)) (modify_from key f l) (modify_from-Modified key l a.low)))
        | inr (inl e) ↦ rw (find-append_eq key k v (entries r) (entries l) e a.below) (
            rw (e, modify_from)
              (record {
                same = sym (put-append_eq key k v (entries r) (f v).0 (entries l) e a.below);
                result = refl;
                hashed = λ hn. (hn.0, hn.1, refl);
              }))
        | inr (inr e) ↦ rw (find-append_gt key k v (entries r) (entries l) e a.below) (
            rw (e, modify_from)
              (Modified-step key r n (λ m. rehash (node k v l m c x))
                (λ hn. (hn.1, ap (node k v l r c) (sym hn.2)))
                (λ m res w g. record {
                  same =
                      rw g.same
                        (sym (put-append_gt key k v (entries r) (f w).0 (entries l) e a.below));
                  result = g.result;
                  hashed = λ hn. (hn.0, g.hashed hn.1, refl);
                })
                (find key (entries r)) (modify_from key f r) (modify_from-Modified key r a.high)))
      ]

  -- What `modify` does where the key reads `v`.
  pub record ModifiedAt (key : K) (t : RbTree K V) (p : RbTree K V × Option T) (v : V)
      : Type 0 where
    pub valid : IsValid p.0
    pub same : entries p.0.root ≡ put key (f v).0 (entries t.root)
    pub result : p.1 ≡ some (f v).1

  abbrev pub ModifiedIn : K → RbTree K V → RbTree K V × Option T → Option V → Type 0
  ModifiedIn key t p none = p ≡ (t, none)
  ModifiedIn key t p (some v) = ModifiedAt key t p v

  length-put_found :
      (key : K) (value : V) (m : List (K × V)) (v : V)
      → Sorted m
      → find key m ≡ some v
      → length (put key value m) ≡ length m
  length-put_found key value m v h e = ground (arith, length-put key value m h)

  modify-cases :
      (key : K) (t : RbTree K V)
      → IsValid t
      → (got : Option V) (sub : Node K V × Option T) → find key (entries t.root) ≡ got
      → Modified key t.root got sub
      → ModifiedIn key t (record t { root = sub.0 }, sub.1) got
  modify-cases key t h none (m, none) e a = ap (λ n. (record t { root = n }, none)) (a h.hashed)
  modify-cases key t h (some v) (m, some res) e a = record {
    valid = record {
      sorted = rw a.same (put-Sorted key (f v).0 (entries t.root) h.sorted);
      counted =
          rw a.same (h.counted ∙ sym (length-put_found key (f v).0 (entries t.root) v h.sorted e));
      hashed = a.hashed h.hashed;
    };
    same = a.same;
    result = ap some a.result;
  }
  modify-cases key t h none (m, some res) e a = absurd a
  modify-cases key t h (some v) (m, none) e a = absurd a

  -- `modify` at a key that the valid tree holds keeps the tree valid, hashes included, puts the
  -- closure's value at the key and returns the closure's result; at any other key, though it computes the
  -- hashes on the way anew, it leaves the tree as it is and returns nothing.
  pub modify-put :
      (key : K) (t : RbTree K V)
      → IsValid t
      → ModifiedIn key t (modify key f t) (find key (entries t.root))
  unfolding modify
  modify-put key t h =
      modify-cases key t h (find key (entries t.root)) (modify_from key f t.root) refl
        (modify_from-Modified key t.root h.sorted)

-- The last entry of a list whose key has the prefix.
pub last_with : {K V : Type 0} → (K → Bool) → List (K × V) → Option (K × V)
last_with test [] = none
last_with test ((k, v) ∷ m) = or_else (last_with test m) (if test k then some (k, v) else none)

module _ {K V : Type 0} (test : K → Bool) where
  last_with-Lacks : (m : List (K × V)) → All (λ e. test e.0 ≡ false) m → last_with test m ≡ none
  unfolding last_with or_else
  last_with-Lacks [] a = refl
  last_with-Lacks ((k, v) ∷ m) a = rw (last_with-Lacks m a.1, a.0) refl

  last_with-append :
      (a b : List (K × V)) → last_with test (a ++ b) ≡ or_else (last_with test b) (last_with test a)
  unfolding last_with or_else
  last_with-append [] b = ground arith
  last_with-append ((k, v) ∷ a) b = rw (last_with-append a b) (ground arith)

module _ {K V P : Type 0} ⦃label : Label K⦄ ⦃prefix : Prefix K P⦄ (p : P) where
  after-none :
      (k : K) (m : List (K × V))
      → prefix.cmp_prefix k p ≡ gt
      → prefix.is_prefix k p ≡ false
      → Above k m
      → last_with (λ j. prefix.is_prefix j p) m ≡ none
  after-none k m c q a =
      last_with-Lacks (λ j. prefix.is_prefix j p) m
        (All-imp (λ e h. prefix.after_prefix k e.0 p c q h) m a)

  before-none :
      (k : K) (m : List (K × V))
      → (prefix.cmp_prefix k p ≡ gt → ⊥)
      → prefix.is_prefix k p ≡ false
      → Below k m
      → last_with (λ j. prefix.is_prefix j p) m ≡ none
  before-none k m c q b =
      last_with-Lacks (λ j. prefix.is_prefix j p) m
        (All-imp (λ e h. prefix.before_prefix e.0 k p q c h) m b)

  -- How a node's key stands to the prefix, and what that says of the entries beside it.
  choose :
      (k : K) (v : V) (below above : List (K × V)) (left right : Option (K × V))
      → Below k below
      → Above k above
      → left ≡ last_with (λ j. prefix.is_prefix j p) below
      → right ≡ last_with (λ j. prefix.is_prefix j p) above
      → (elim (arm (prefix.cmp_prefix k p) (prefix.is_prefix k p)) [
        | here ↦ or_else right (some (k, v))
        | leftward ↦ left
        | rightward ↦ right
      ])
        ≡ last_with (λ j. prefix.is_prefix j p) (below ++ (k, v) ∷ above)
  unfolding arm last_with or_else
  choose k v below above left right b a el er =
      rw (last_with-append (λ j. prefix.is_prefix j p) below ((k, v) ∷ above)) (
        ground (
          arith,
          after-none k above,
          before-none k below,
          prefix.lt_prefix k p,
          Ordering-cases (prefix.cmp_prefix k p),
        ))

  max_entry_from-last :
      (n : Node K V)
      → Sorted (entries n)
      → max_entry_from p n ≡ last_with (λ k. prefix.is_prefix k p) (entries n)
  unfolding max_entry_from last_with
  max_entry_from-last null h = refl
  max_entry_from-last (node k v l r c x) h =
      let a = Sorted-split (entries l) k v (entries r) h in
      choose k v (entries l) (entries r) (max_entry_from p l) (max_entry_from p r) a.below a.above
        (max_entry_from-last l a.low) (max_entry_from-last r a.high)

  -- In a tree whose keys rise `max_entry_with_prefix` finds the entry with the greatest key that has the prefix,
  -- and nothing where no key has it.
  pub max_entry_with_prefix-last :
      (t : RbTree K V)
      → Sorted (entries t.root)
      → max_entry_with_prefix p t ≡ last_with (λ k. prefix.is_prefix k p) (entries t.root)
  unfolding max_entry_with_prefix
  max_entry_with_prefix-last t h = max_entry_from-last t.root h
