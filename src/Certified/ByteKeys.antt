-- ===== src/Certified/ByteKeys.antt =====
-- The byte strings as keys, of label.rs: `Vec<u8>` (`Box<[u8]>` alike) with the order of slices, and a
-- slice as its prefix.
use Prim.Native.Nat.Ordering.{lt, eq, gt}
use ic_kit.Base.{
  compare, Ordering, ◌≡◌, refl, ap₂, Bool, true, false, [], ◌∷◌, arith, ◌==◌, ◌&&◌, if◌then◌else◌,
}
use ic_kit.Certified.HashTree.{Bytes}
use ic_kit.Certified.Label.{Label, reverse}
use ic_kit.Certified.RbTree.Query.{Prefix, max_entry_with_prefix}
use ic_kit.Certified.RbTree.Query.Laws.{last_with, max_entry_with_prefix-last}
use ic_kit.Certified.RbTree.Insert.{RbTree}
use ic_kit.Certified.RbTree.Keeps.{entries}
use ic_kit.Certified.Assoc.{Sorted}
use ic_kit.Certified.Paged.Key.{lexicographic}

-- `Ord` of slices: the first difference decides, and a slice comes after its prefixes.
unfoldable pub cmp_bytes : Bytes → Bytes → Ordering
unfolding lexicographic
cmp_bytes [] [] = eq
cmp_bytes [] (_ ∷ _) = lt
cmp_bytes (_ ∷ _) [] = gt
cmp_bytes (a ∷ xs) (b ∷ bs) = lexicographic (compare a b) (cmp_bytes xs bs)

-- `<[u8]>::starts_with`.
unfoldable pub starts_with : Bytes → Bytes → Bool
starts_with _ [] = true
starts_with [] (_ ∷ _) = false
starts_with (a ∷ xs) (b ∷ bs) = (a == b) && starts_with xs bs

pub cmp_bytes-reverse : (a b : Bytes) → cmp_bytes b a ≡ reverse (cmp_bytes a b)
unfolding cmp_bytes lexicographic
cmp_bytes-reverse [] [] = refl
cmp_bytes-reverse [] (_ ∷ _) = refl
cmp_bytes-reverse (_ ∷ _) [] = refl
cmp_bytes-reverse (a ∷ xs) (b ∷ bs) = ground (arith, cmp_bytes-reverse xs bs)

pub eq_of_cmp_bytes : (a b : Bytes) → cmp_bytes a b ≡ eq → a ≡ b
unfolding cmp_bytes lexicographic
eq_of_cmp_bytes [] [] e = refl
eq_of_cmp_bytes [] (_ ∷ _) e = absurd (cc)
eq_of_cmp_bytes (_ ∷ _) [] e = absurd (cc)
eq_of_cmp_bytes (a ∷ xs) (b ∷ bs) e =
    ap₂ (λ h t. h ∷ t) (ground (arith, eq_of_cmp_bytes xs bs))
      (ground (arith, eq_of_cmp_bytes xs bs))

pub cmp_bytes-chain : (a b c : Bytes) → cmp_bytes a b ≡ lt → cmp_bytes b c ≡ lt → cmp_bytes a c ≡ lt
unfolding cmp_bytes lexicographic
cmp_bytes-chain [] (_ ∷ _) (_ ∷ _) e f = refl
cmp_bytes-chain (a ∷ xs) (b ∷ bs) (c ∷ cs) e f = ground (arith, cmp_bytes-chain xs bs cs)
cmp_bytes-chain _ [] [] e f = absurd (cc)
cmp_bytes-chain [] [] (_ ∷ _) e f = refl
cmp_bytes-chain (_ ∷ _) [] (_ ∷ _) e f = absurd (cc)
cmp_bytes-chain _ (_ ∷ _) [] e f = absurd (cc)

pub lt_bytes : (k p : Bytes) → cmp_bytes k p ≡ lt → starts_with k p ≡ false
unfolding cmp_bytes lexicographic starts_with
lt_bytes [] [] e = absurd (cc)
lt_bytes [] (_ ∷ _) e = refl
lt_bytes (_ ∷ _) [] e = absurd (cc)
lt_bytes (k ∷ ks) (p ∷ ps) e = ground (arith, lt_bytes ks ps)

-- Past a key that is above a prefix and does not have it, no key has it.
pub after_bytes :
    (j k p : Bytes)
    → cmp_bytes j p ≡ gt
    → starts_with j p ≡ false
    → cmp_bytes j k ≡ lt
    → starts_with k p ≡ false
unfolding cmp_bytes lexicographic starts_with
after_bytes [] k [] c q e = absurd (cc)
after_bytes [] k (_ ∷ _) c q e = absurd (cc)
after_bytes (_ ∷ _) k [] c q e = absurd (cc)
after_bytes (_ ∷ _) [] (_ ∷ _) c q e = refl
after_bytes (j ∷ js) (k ∷ ks) (p ∷ ps) c q e = ground (arith, after_bytes js ks ps)

pub before_bytes :
    (j k p : Bytes)
    → starts_with k p ≡ false
    → (cmp_bytes k p ≡ gt → ⊥)
    → cmp_bytes j k ≡ lt
    → starts_with j p ≡ false
unfolding cmp_bytes lexicographic starts_with
before_bytes j k [] q c e = absurd (cc)
before_bytes [] k (_ ∷ _) q c e = refl
before_bytes (_ ∷ _) [] (_ ∷ _) q c e = absurd (cc)
before_bytes (j ∷ js) (k ∷ ks) (p ∷ ps) q c e = ground (arith, before_bytes js ks ps)

instance unfoldable pub bytes_label : Label Bytes
bytes_label = record {
  as_label = λ bytes. bytes;
  cmp = cmp_bytes;
  swapped = cmp_bytes-reverse;
  same = eq_of_cmp_bytes;
  chain = cmp_bytes-chain;
}

instance unfoldable pub bytes_prefix : Prefix Bytes Bytes
unfolding bytes_label
bytes_prefix = record {
  cmp_prefix = cmp_bytes;
  is_prefix = starts_with;
  lt_prefix = lt_bytes;
  after_prefix = after_bytes;
  before_prefix = before_bytes;
}

unfoldable pub cmp_bool : Bool → Bool → Ordering
cmp_bool false true = lt
cmp_bool true false = gt
cmp_bool true true = eq
cmp_bool false false = eq

pub cmp_bool-reverse : (a b : Bool) → cmp_bool b a ≡ reverse (cmp_bool a b)
unfolding cmp_bool
cmp_bool-reverse a b = ground arith

pub eq_of_cmp_bool : (a b : Bool) → cmp_bool a b ≡ eq → a ≡ b
unfolding cmp_bool
eq_of_cmp_bool a b e = ground arith

pub cmp_bool-chain : (a b c : Bool) → cmp_bool a b ≡ lt → cmp_bool b c ≡ lt → cmp_bool a c ≡ lt
unfolding cmp_bool
cmp_bool-chain a b c e f = ground arith

-- `impl Label for bool`; `false` comes before `true`.
instance unfoldable pub bool_label : Label Bool
bool_label = record {
  as_label = λ b. if b then 1 ∷ [] else 0 ∷ [];
  cmp = cmp_bool;
  swapped = cmp_bool-reverse;
  same = eq_of_cmp_bool;
  chain = cmp_bool-chain;
}

module _ {V : Type 0} where
  -- In a tree of byte strings that rise, `max_entry_with_prefix` finds the entry with the greatest key that
  -- starts with the prefix's bytes, and nothing where no key does.
  max_entry_with_prefix-starts_with :
      (p : Bytes) (t : RbTree Bytes V)
      → Sorted (entries t.root)
      → max_entry_with_prefix p t ≡ last_with (λ k. starts_with k p) (entries t.root)
  unfolding bytes_prefix
  max_entry_with_prefix-starts_with p t h = max_entry_with_prefix-last p t h
