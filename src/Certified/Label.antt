-- ===== src/Certified/Label.antt =====
-- ic-kit-certified/src/label.rs and the trait of as_hash_tree.rs: what the trees ask of their keys
-- and values. `Ord` is the standard library's, with the laws that its documentation asks of `cmp`.
use Prim.Native.Nat.Ordering.{lt, eq, gt}
use ic_kit.Base.{◌∙◌, ap, ℕ, Ordering, compare, ◌≡◌, refl, arith, [], ◌∷◌}
use ic_kit.Certified.HashTree.{Bytes, Hash, Sha256, HashTree, leaf, leaf_hash, reconstruct}

-- `Ordering::reverse`.
abbrev pub reverse : Ordering → Ordering
reverse lt = gt
reverse eq = eq
reverse gt = lt

-- The trait `Label: Ord`. The order is total, reversed by swapping its sides, and equal keys are one.
pub record Label (K : Type 0) : Type 0 where
  pub as_label : K → Bytes
  pub cmp : K → K → Ordering
  pub swapped : (a b : K) → cmp b a ≡ reverse (cmp a b)
  pub same : (a b : K) → cmp a b ≡ eq → a ≡ b
  pub chain : (a b c : K) → cmp a b ≡ lt → cmp b c ≡ lt → cmp a c ≡ lt

infix 50 ◌≺◌
abbrev pub ◌≺◌ : {K : Type 0} ⦃label : Label K⦄ → K → K → Type 0
◌≺◌ ⦃label⦄ a b = label.cmp a b ≡ lt

-- The trait `AsHashTree`, with the equation that its documentation asks of `root_hash`.
pub record AsHashTree (V : Type 0) ⦃s : Sha256⦄ : Type 0 where
  pub root_hash : V → Hash
  pub as_hash_tree : V → HashTree
  pub root_hash_lem : (v : V) → root_hash v ≡ reconstruct (as_hash_tree v)

reverse_fixed : (o : Ordering) → o ≡ reverse o → o ≡ eq
reverse_fixed lt e = cc
reverse_fixed eq e = refl
reverse_fixed gt e = cc

module _ {K : Type 0} ⦃label : Label K⦄ where
  pub cmp_self : (a : K) → label.cmp a a ≡ eq
  cmp_self a = reverse_fixed (label.cmp a a) (label.swapped a a)

  pub above_of_gt : (a b : K) → label.cmp a b ≡ gt → b ≺ a
  above_of_gt a b e = label.swapped a b ∙ ap reverse e

  pub gt_of_above : (a b : K) → a ≺ b → label.cmp b a ≡ gt
  gt_of_above a b e = label.swapped a b ∙ ap reverse e

pub compare-reverse : (a b : ℕ) → compare b a ≡ reverse (compare a b)
compare-reverse a b = ground arith

pub eq_of_compare : (a b : ℕ) → compare a b ≡ eq → a ≡ b
eq_of_compare a b = ground arith

pub compare-chain : (a b c : ℕ) → compare a b ≡ lt → compare b c ≡ lt → compare a c ≡ lt
compare-chain a b c = ground arith

-- The big-endian bytes of a `u8` are the number itself.
instance unfoldable pub u8_label : Label ℕ
u8_label = record {
  as_label = λ n. n ∷ [];
  cmp = compare;
  swapped = compare-reverse;
  same = eq_of_compare;
  chain = compare-chain;
}

module _ ⦃s : Sha256⦄ where
  pub leaf_hash-reconstruct : (v : Bytes) → leaf_hash v ≡ reconstruct (leaf v)
  unfolding reconstruct
  leaf_hash-reconstruct v = refl

  -- `impl AsHashTree for Vec<u8>`
  instance unfoldable pub vec_tree : AsHashTree Bytes
  vec_tree = record {
    root_hash = leaf_hash;
    as_hash_tree = leaf;
    root_hash_lem = leaf_hash-reconstruct;
  }
