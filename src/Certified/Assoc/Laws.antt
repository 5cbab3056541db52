-- ===== src/Certified/Assoc/Laws.antt =====
-- The laws of the specification: what `put` and `erase` keep, and how they read.
use ic_kit.Base.{ℕ, ◌+◌, ◌≡◌, ◌≢◌, refl, List, [], ◌∷◌, Option, none, some, arith, length}
use ic_kit.Certified.Label.{above_of_gt, cmp_self, Label, ◌≺◌}
use ic_kit.Certified.Assoc.{Above, Sorted, find, put, erase, find-Above, Above-trans}

-- 1 for a hit and 0 for a miss.
abbrev pub hit : {V : Type 0} → Option V → ℕ
hit none = 0
hit (some _) = 1

module _ {K V : Type 0} ⦃label : Label K⦄ where
  Above-put :
      (j key : K) (value : V) (m : List (K × V)) → j ≺ key → Above j m → Above j (put key value m)
  unfolding put
  Above-put j key value [] h a = (h, tt)
  Above-put j key value ((k, v) ∷ m) h a = ground (arith, Above-put j key value m h a.1)

  Above-erase : (j key : K) (m : List (K × V)) → Above j m → Above j (erase key m)
  unfolding erase
  Above-erase j key [] a = tt
  Above-erase j key ((k, v) ∷ m) a = ground (arith, Above-erase j key m a.1)

  pub put-Sorted : (key : K) (value : V) (m : List (K × V)) → Sorted m → Sorted (put key value m)
  unfolding put
  put-Sorted key value [] h = (tt, tt)
  put-Sorted key value ((k, v) ∷ m) h = ground (
    arith,
    put-Sorted key value m h.1,
    Above-put k key value m,
    Above-trans key k m,
    above_of_gt key k,
  )

  pub erase-Sorted : (key : K) (m : List (K × V)) → Sorted m → Sorted (erase key m)
  unfolding erase
  erase-Sorted key [] h = tt
  erase-Sorted key ((k, v) ∷ m) h = ground (arith, erase-Sorted key m h.1, Above-erase k key m h.0)

  pub find-put_self :
      (key : K) (value : V) (m : List (K × V)) → find key (put key value m) ≡ some value
  unfolding find put
  find-put_self key value [] = rw (cmp_self, find)
  find-put_self key value ((k, v) ∷ m) = ground (arith, find-put_self key value m, cmp_self key)

  pub find-put_ne :
      (key other : K) (value : V) (m : List (K × V))
      → other ≢ key
      → find other (put key value m) ≡ find other m
  unfolding find put
  find-put_ne key other value [] n = ground (arith, label.same other key)
  find-put_ne key other value ((k, v) ∷ m) n = ground (
    arith,
    find-put_ne key other value m n,
    label.same other key,
    label.same other k,
    label.same key k,
  )

  pub find-erase_self : (key : K) (m : List (K × V)) → Sorted m → find key (erase key m) ≡ none
  unfolding find erase
  find-erase_self key [] h = refl
  find-erase_self key ((k, v) ∷ m) h =
      ground (arith, find-erase_self key m h.1, find-Above key m, label.same key k)

  pub find-erase_ne :
      (key other : K) (m : List (K × V)) → other ≢ key → find other (erase key m) ≡ find other m
  unfolding find erase
  find-erase_ne key other [] n = refl
  find-erase_ne key other ((k, v) ∷ m) n =
      ground (arith, find-erase_ne key other m n, label.same other k, label.same key k)

  pub length-put :
      (key : K) (value : V) (m : List (K × V))
      → Sorted m
      → length (put key value m) + hit (find key m) ≡ length m + 1
  unfolding find put
  length-put key value [] h = refl
  length-put key value ((k, v) ∷ m) h =
      ground (arith, length-put key value m h.1, find-Above key m, Above-trans key k m)

  pub length-erase :
      (key : K) (m : List (K × V)) → length (erase key m) + hit (find key m) ≡ length m
  unfolding find erase
  length-erase key [] = refl
  length-erase key ((k, v) ∷ m) = ground (arith, length-erase key m)
