-- ===== src/Certified/Serialize/Laws.antt =====
-- What a reader of the serialized hash tree can rely on: the calls determine the tree.
use ic_kit.Base.{
  ℕ, zero, suc, ◌+◌, ◌≤◌, ◌≡◌, refl, sym, ap, ◌∙◌, List, [], ◌∷◌, ◌++◌, append_assoc, arith, Option,
  some, none, ◌>>=◌,
}
use ic_kit.Certified.HashTree.{HashTree, empty, fork, labeled, leaf, pruned}
use ic_kit.Certified.Serialize.{Call, serialize_seq, element_u8, element_bytes, end, serialize}

abbrev read_end : HashTree → List Call → Option (HashTree × List Call)
read_end t (end ∷ cs) = some (t, cs)
read_end t _ = none

-- A reader of the calls, to the given depth: the tree, and the calls after it.
unfoldable read : ℕ → List Call → Option (HashTree × List Call)
read zero cs = none
read (suc f) (serialize_seq _ ∷ element_u8 zero ∷ cs) = read_end empty cs
read (suc f) (serialize_seq _ ∷ element_u8 (suc zero) ∷ cs) = do
  (l, cs) ← read f cs
  (r, cs) ← read f cs
  read_end (fork l r) cs
read (suc f) (serialize_seq _ ∷ element_u8 (suc (suc zero)) ∷ element_bytes b ∷ cs) = do
  (t, cs) ← read f cs
  read_end (labeled b t) cs
read (suc f) (serialize_seq _ ∷ element_u8 (suc (suc (suc zero))) ∷ element_bytes b ∷ cs) =
    read_end (leaf b) cs
read (suc f) (serialize_seq _ ∷ element_u8 (suc (suc (suc (suc zero)))) ∷ element_bytes b ∷ cs) =
    read_end (pruned b) cs
read (suc f) _ = none

-- Depth enough to read a tree.
abbrev depth : HashTree → ℕ
depth (fork l r) = suc (depth l + depth r)
depth (labeled _ t) = suc (depth t)
depth _ = 1

read-serialize :
    (t : HashTree) (f : ℕ) (cs : List Call)
    → depth t ≤ f
    → read f (serialize t ++ cs) ≡ some (t, cs)
unfolding read serialize
read-serialize empty zero cs h = absurd (omega arith)
read-serialize empty (suc f) cs h = refl
read-serialize (fork l r) zero cs h = absurd (omega arith)
read-serialize (fork l r) (suc f) cs h =
    rw
      (
        append_assoc (serialize l) (serialize r ++ end ∷ []) cs,
        read-serialize l f ((serialize r ++ end ∷ []) ++ cs) (omega arith),
        append_assoc (serialize r) (end ∷ []) cs,
        read-serialize r f (end ∷ cs) (omega arith),
      )
      refl
read-serialize (labeled b t) zero cs h = absurd (omega arith)
read-serialize (labeled b t) (suc f) cs h =
    rw (append_assoc (serialize t) (end ∷ []) cs, read-serialize t f (end ∷ cs) (omega arith)) refl
read-serialize (leaf b) zero cs h = absurd (omega arith)
read-serialize (leaf b) (suc f) cs h = refl
read-serialize (pruned b) zero cs h = absurd (omega arith)
read-serialize (pruned b) (suc f) cs h = refl

-- Two hash trees whose serializations begin the same output are the same tree, followed by the same calls: a
-- serialized tree can be read back, and tells where it ends.
pub serialize-inj :
    (a b : HashTree) (x y : List Call) → serialize a ++ x ≡ serialize b ++ y → (a ≡ b) × (x ≡ y)
serialize-inj a b x y e =
    let f = depth a + depth b in
    let ra = read-serialize a f x (omega arith) in
    let rb = read-serialize b f y (omega arith) in
    let same = sym ra ∙ ap (read f) e ∙ rb in (cc, cc)
