-- ===== src/Certified/Assoc.antt =====
-- The specification of the tree: a map as the list of its entries, in the order of their keys.
pub mod Laws
use Prim.Native.Nat.Ordering.{lt, eq, gt}
use ic_kit.Base.{
  ℕ, ◌≡◌, refl, List, [], ◌∷◌, ◌++◌, Option, none, some, arith, ap, All, All-append,
  All-append_left, All-append_right, All-imp,
}
use ic_kit.Certified.Label.{above_of_gt, gt_of_above, Label, ◌≺◌}

module _ {K V : Type 0} ⦃label : Label K⦄ where
  abbrev pub Below : K → List (K × V) → Type 0
  Below k = All (λ e. e.0 ≺ k)

  abbrev pub Above : K → List (K × V) → Type 0
  Above k = All (λ e. k ≺ e.0)

  -- The keys rise, so no key occurs twice.
  abbrev pub Sorted : List (K × V) → Type 0
  Sorted [] = Unit
  Sorted ((k, v) ∷ m) = Above k m × Sorted m

  unfoldable pub find : K → List (K × V) → Option V
  find key [] = none
  find key ((k, v) ∷ m) = elim (label.cmp key k) [ eq ↦ some v | _ ↦ find key m ]

  unfoldable pub put : K → V → List (K × V) → List (K × V)
  put key value [] = (key, value) ∷ []
  put key value ((k, v) ∷ m) = elim (label.cmp key k) [
    | lt ↦ (key, value) ∷ (k, v) ∷ m
    | eq ↦ (k, value) ∷ m
    | gt ↦ (k, v) ∷ put key value m
  ]

  unfoldable pub erase : K → List (K × V) → List (K × V)
  erase key [] = []
  erase key ((k, v) ∷ m) = elim (label.cmp key k) [ eq ↦ m | _ ↦ (k, v) ∷ erase key m ]

  -- A list sorted round an entry.
  pub record Around (k : K) (l r : List (K × V)) : Type 0 where
    pub low : Sorted l
    pub high : Sorted r
    pub below : Below k l
    pub above : Above k r

  pub Sorted-split :
      (l : List (K × V)) (k : K) (v : V) (r : List (K × V))
      → Sorted (l ++ (k, v) ∷ r)
      → Around k l r
  Sorted-split [] k v r h = record { low = tt; high = h.1; below = tt; above = h.0 }
  Sorted-split ((j, w) ∷ l) k v r h =
      let a = Sorted-split l k v r h.1 in
      record {
        low = (All-append_left (λ e. j ≺ e.0) l _ h.0, a.low);
        high = a.high;
        below = ((All-append_right (λ e. j ≺ e.0) l _ h.0).0, a.below);
        above = a.above;
      }

  pub Sorted-join :
      (l : List (K × V)) (k : K) (v : V) (r : List (K × V))
      → Around k l r
      → Sorted (l ++ (k, v) ∷ r)
  Sorted-join [] k v r a = (a.above, a.high)
  Sorted-join ((j, w) ∷ l) k v r a = (
    All-append (λ e. j ≺ e.0) l _ a.low.0
        (a.below.0, All-imp (λ e h. label.chain j k e.0 a.below.0 h) r a.above),
    Sorted-join l k v r
        (record { low = a.low.1; high = a.high; below = a.below.1; above = a.above }),
  )

  pub find-Above : (key : K) (m : List (K × V)) → Above key m → find key m ≡ none
  unfolding find
  find-Above key [] a = refl
  find-Above key ((k, v) ∷ m) a = rw (a.0, find) (find-Above key m a.1)

  pub erase-Above : (key : K) (m : List (K × V)) → Above key m → erase key m ≡ m
  unfolding erase
  erase-Above key [] a = refl
  erase-Above key ((k, v) ∷ m) a = rw (a.0, erase) (rw (erase-Above key m a.1))

  pub Above-trans : (j k : K) (m : List (K × V)) → j ≺ k → Above k m → Above j m
  Above-trans j k m h = All-imp (λ e. label.chain j k e.0 h) m

  -- The operations on a list that is split at an entry.
  module _ (key k : K) (v : V) (r : List (K × V)) where
    pub find-append_lt :
        (l : List (K × V)) → key ≺ k → Above k r → find key (l ++ (k, v) ∷ r) ≡ find key l
    unfolding find
    find-append_lt [] h a = rw (h, find) (find-Above key r (Above-trans key k r h a))
    find-append_lt ((j, w) ∷ l) h a = ground (arith, find-append_lt l h a)

    pub find-append_eq :
        (l : List (K × V)) → label.cmp key k ≡ eq → Below k l → find key (l ++ (k, v) ∷ r) ≡ some v
    unfolding find
    find-append_eq [] h b = rw (h, find)
    find-append_eq ((j, w) ∷ l) h b =
        ground (arith, find-append_eq l h b.1, label.same key k, gt_of_above j k)

    pub find-append_gt :
        (l : List (K × V))
        → label.cmp key k ≡ gt
        → Below k l
        → find key (l ++ (k, v) ∷ r) ≡ find key r
    unfolding find
    find-append_gt [] h b = rw (h, find)
    find-append_gt ((j, w) ∷ l) h b = ground (
      arith,
      find-append_gt l h b.1,
      above_of_gt key k,
      label.chain j k key b.0,
      gt_of_above j key,
    )

    pub erase-append_lt :
        (l : List (K × V))
        → key ≺ k
        → Above k r
        → erase key (l ++ (k, v) ∷ r) ≡ erase key l ++ (k, v) ∷ r
    unfolding erase
    erase-append_lt [] h a =
        rw (h, erase) (ap (λ m. (k, v) ∷ m) (erase-Above key r (Above-trans key k r h a)))
    erase-append_lt ((j, w) ∷ l) h a = ground (arith, erase-append_lt l h a)

    pub erase-append_eq :
        (l : List (K × V)) → label.cmp key k ≡ eq → Below k l → erase key (l ++ (k, v) ∷ r) ≡ l ++ r
    unfolding erase
    erase-append_eq [] h b = rw (h, erase)
    erase-append_eq ((j, w) ∷ l) h b =
        ground (arith, erase-append_eq l h b.1, label.same key k, gt_of_above j k)

    pub erase-append_gt :
        (l : List (K × V))
        → label.cmp key k ≡ gt
        → Below k l
        → erase key (l ++ (k, v) ∷ r) ≡ l ++ (k, v) ∷ erase key r
    unfolding erase
    erase-append_gt [] h b = rw (h, erase)
    erase-append_gt ((j, w) ∷ l) h b = ground (
      arith,
      erase-append_gt l h b.1,
      above_of_gt key k,
      label.chain j k key b.0,
      gt_of_above j key,
    )

    pub put-append_lt :
        (value : V) (l : List (K × V))
        → key ≺ k
        → put key value (l ++ (k, v) ∷ r) ≡ put key value l ++ (k, v) ∷ r
    unfolding put
    put-append_lt value [] h = rw (h, put)
    put-append_lt value ((j, w) ∷ l) h = ground (arith, put-append_lt value l h)

    pub put-append_eq :
        (value : V) (l : List (K × V))
        → label.cmp key k ≡ eq
        → Below k l
        → put key value (l ++ (k, v) ∷ r) ≡ l ++ (k, value) ∷ r
    unfolding put
    put-append_eq value [] h b = rw (h, put)
    put-append_eq value ((j, w) ∷ l) h b =
        ground (arith, put-append_eq value l h b.1, label.same key k, gt_of_above j k)

    pub put-append_gt :
        (value : V) (l : List (K × V))
        → label.cmp key k ≡ gt
        → Below k l
        → put key value (l ++ (k, v) ∷ r) ≡ l ++ (k, v) ∷ put key value r
    unfolding put
    put-append_gt value [] h b = rw (h, put)
    put-append_gt value ((j, w) ∷ l) h b = ground (
      arith,
      put-append_gt value l h b.1,
      above_of_gt key k,
      label.chain j k key b.0,
      gt_of_above j key,
    )
