-- ===== src/Dict.antt =====
-- Maps and sets with numbers for keys, such as the runtime's hash maps of requests, by their contents.
use ic_kit.Base.{
  ℕ, ◌≡◌, Bool, true, false, Option, none, some, List, [], ◌∷◌, ◌==◌, if◌then◌else◌, arith,
}

abbrev pub Dict : Type 0 → Type 0
Dict A = List (ℕ × A)

module _ {A : Type 0} where
  unfoldable pub find : ℕ → Dict A → Option A
  find k [] = none
  find k ((j, a) ∷ d) = if j == k then some a else find k d

  unfoldable pub erase : ℕ → Dict A → Dict A
  erase k [] = []
  erase k ((j, a) ∷ d) = let rest = erase k d in if j == k then rest else (j, a) ∷ rest

  unfoldable pub put : ℕ → A → Dict A → Dict A
  unfolding erase
  put k a d = (k, a) ∷ erase k d

  pub find-erase : (i k : ℕ) (d : Dict A) → find i (erase k d) ≡ (if k == i then none else find i d)
  unfolding find erase
  find-erase i k [] = ground arith
  find-erase i k ((j, a) ∷ d) = ground (arith, find-erase i k d)

  pub find-put :
      (i k : ℕ) (a : A) (d : Dict A) → find i (put k a d) ≡ (if k == i then some a else find i d)
  unfolding put find
  find-put i k a d = ground (arith, find-erase i k d)

-- A set of request numbers.
unfoldable pub member : ℕ → List ℕ → Bool
member k [] = false
member k (j ∷ s) = if j == k then true else member k s

unfoldable pub add : ℕ → List ℕ → List ℕ
unfolding member
add k s = if member k s then s else k ∷ s

unfoldable pub discard : ℕ → List ℕ → List ℕ
discard k [] = []
discard k (j ∷ s) = let rest = discard k s in if j == k then rest else j ∷ rest
