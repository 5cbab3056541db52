-- ===== src/Certified/Paged/Key.antt =====
-- `PagedKey` of paged.rs: ordered by the key and then by the page, with the key as its prefix.
use Prim.Native.Nat.Ordering.{lt, eq, gt}
use ic_kit.Base.{
  ℕ, ◌/◌, ◌%◌, ◌^◌, compare, Ordering, ◌≡◌, refl, ap₂, Bool, true, false, [], ◌∷◌, ◌++◌, arith,
  Ordering-cases, inl, inr,
}
use ic_kit.Certified.HashTree.{Bytes}
use ic_kit.Certified.Label.{
  Label, reverse, compare-reverse, eq_of_compare, compare-chain, above_of_gt, gt_of_above,
}
use ic_kit.Certified.RbTree.Query.{Prefix}

pub record PagedKey (K : Type 0) : Type 0 where
  pub key : K
  pub page : ℕ

abbrev pub page_key : {K : Type 0} → K → ℕ → PagedKey K
page_key key page = record { key = key; page = page }

-- `to_be_bytes` of a `u32`.
unfoldable pub to_be_bytes : ℕ → Bytes
to_be_bytes n = (n / 2 ^ 24 % 256) ∷ (n / 2 ^ 16 % 256) ∷ (n / 2 ^ 8 % 256) ∷ (n % 256) ∷ []

unfoldable pub is_eq : Ordering → Bool
is_eq eq = true
is_eq lt = false
is_eq gt = false

-- `Ordering::then` on the second comparison.
unfoldable pub lexicographic : Ordering → Ordering → Ordering
lexicographic eq o = o
lexicographic lt o = lt
lexicographic gt o = gt

module _ {K : Type 0} ⦃label : Label K⦄ where
  -- The derived `Ord`.
  unfoldable pub cmp_page : PagedKey K → PagedKey K → Ordering
  unfolding lexicographic
  cmp_page a b = lexicographic (label.cmp a.key b.key) (compare a.page b.page)

  pub cmp_page-reverse : (a b : PagedKey K) → cmp_page b a ≡ reverse (cmp_page a b)
  unfolding cmp_page lexicographic
  cmp_page-reverse a b =
      rw (label.swapped a.key b.key, compare-reverse a.page b.page)
        (ground (arith, Ordering-cases (label.cmp a.key b.key)))

  pub eq_of_cmp_page : (a b : PagedKey K) → cmp_page a b ≡ eq → a ≡ b
  unfolding cmp_page lexicographic
  eq_of_cmp_page a b e = elim (Ordering-cases (label.cmp a.key b.key)) [
    | inl l ↦ absurd (cc)
    | inr (inl q) ↦
        let k = label.same a.key b.key q in
        let p = eq_of_compare a.page b.page (ground arith) in
        ap₂ (λ k p. record { key = k; page = p }) k p
    | inr (inr g) ↦ absurd (cc)
  ]

  pub cmp_page-chain :
      (a b c : PagedKey K) → cmp_page a b ≡ lt → cmp_page b c ≡ lt → cmp_page a c ≡ lt
  unfolding cmp_page lexicographic
  cmp_page-chain a b c e f = ground (
    arith,
    label.chain a.key b.key c.key,
    label.same a.key b.key,
    label.same b.key c.key,
    compare-chain a.page b.page c.page,
    Ordering-cases (label.cmp a.key b.key),
    Ordering-cases (label.cmp b.key c.key),
  )

  -- `as_label`: the key's label and the page's bytes.
  instance unfoldable pub key_label : Label (PagedKey K)
  unfolding to_be_bytes cmp_page
  key_label = record {
    as_label = λ k. label.as_label k.key ++ to_be_bytes k.page;
    cmp = cmp_page;
    swapped = cmp_page-reverse;
    same = eq_of_cmp_page;
    chain = cmp_page-chain;
  }

  pub lt_key : (k : PagedKey K) (p : K) → label.cmp k.key p ≡ lt → is_eq (label.cmp k.key p) ≡ false
  unfolding is_eq
  lt_key k p e = rw e refl

  pub after_key :
      (j k : PagedKey K) (p : K)
      → label.cmp j.key p ≡ gt
      → is_eq (label.cmp j.key p) ≡ false
      → cmp_page j k ≡ lt
      → is_eq (label.cmp k.key p) ≡ false
  unfolding is_eq cmp_page lexicographic
  after_key j k p c q e = ground (
    arith,
    above_of_gt j.key p,
    label.chain p j.key k.key,
    gt_of_above p k.key,
    label.same j.key k.key,
    Ordering-cases (label.cmp j.key k.key),
    Ordering-cases (label.cmp k.key p),
  )

  pub before_key :
      (j k : PagedKey K) (p : K)
      → is_eq (label.cmp k.key p) ≡ false
      → (label.cmp k.key p ≡ gt → ⊥)
      → cmp_page j k ≡ lt
      → is_eq (label.cmp j.key p) ≡ false
  unfolding is_eq cmp_page lexicographic
  before_key j k p q c e = ground (
    arith,
    label.chain j.key k.key p,
    label.same j.key k.key,
    Ordering-cases (label.cmp j.key k.key),
    Ordering-cases (label.cmp k.key p),
  )

  -- `impl Prefix<K> for PagedKey<K>`: the borrowed key, and the trait's own `is_prefix`.
  instance unfoldable pub key_prefix : Prefix (PagedKey K) K
  unfolding is_eq key_label cmp_page
  key_prefix = record {
    cmp_prefix = λ k p. label.cmp k.key p;
    is_prefix = λ k p. is_eq (label.cmp k.key p);
    lt_prefix = lt_key;
    after_prefix = after_key;
    before_prefix = before_key;
  }
