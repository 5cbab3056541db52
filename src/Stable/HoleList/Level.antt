-- ===== src/Stable/HoleList/Level.antt =====
-- The search of `find` in hole.rs through the lists of holes.
use ic_kit.Base.{
  ℕ, zero, suc, ◌+◌, ◌-◌, ◌≤◌, ◌<◌, ◌≡◌, true, Option, none, some, List, ltb, arith, Bool-cases,
  inl, inr, Returns, Returns-imp, Returns-bind,
}
use ic_kit.Stable.Hole.Laws.{Fits, find_hole-Fits}
use ic_kit.Stable.HoleList.{HoleList, root}
use ic_kit.Stable.HoleList.Search.{find_at, find_from}
use ic_kit.Stable.HoleList.Index.{get_log2_index}
use ic_kit.Stable.HoleList.Invariant.{IsHoleList, size_at}
use ic_kit.Stable.HoleList.Walk.{Level, collect-Level}

-- A hole and the bytes that it has beyond the size; or no hole of the lists from `i` to `j` is large enough.
abbrev pub Search : ℕ → ℕ → ℕ → HoleList → Option (ℕ × ℕ) → Type 0
Search i j size list none =
    (a n : ℕ) → size_at list a ≡ some n → i ≤ get_log2_index n → get_log2_index n < j → n < size
Search i j size list (some (addr, delta)) = size_at list addr ≡ some (size + delta)

module _ {limit : ℕ} {list : HoleList} (valid : IsHoleList limit list) where
  Fits-Search :
      (i size : ℕ) (l : List (ℕ × ℕ))
      → Level valid i l
      → (r : Option (ℕ × ℕ)) → Fits size l r
      → Search i (suc i) size list r
  Fits-Search i size l level none fits = λ a n e k h. fits a n ((level a n).1 (e, omega arith))
  Fits-Search i size l level (some (addr, delta)) fits = ((level addr (size + delta)).0 fits.0).0

  find_at-Search :
      (i size : ℕ) → i < 36 → Returns (Search i (suc i) size list) (find_at i size list)
  unfolding find_at root
  find_at-Search i size h =
      let checked : ltb i 36 ≡ true = ground arith in
      rw checked (
        Returns-bind (Level valid i) _ _ _ (collect-Level valid i) λ l level.
          Returns-imp (Fits size l) _ _ (find_hole-Fits size l) (Fits-Search i size l level))

  Search-join :
      (rounds i size : ℕ)
      → Search i (suc i) size list none
      → (r : Option (ℕ × ℕ)) → Search (suc i) (suc i + rounds) size list r
      → Search i (i + suc rounds) size list r
  Search-join rounds i size here none later = λ a n e k l.
      elim (Bool-cases (ltb i (get_log2_index n))) [
        | inl f ↦ later a n e (ground arith) (omega arith)
        | inr f ↦ here a n e k (ground arith)
      ]
  Search-join rounds i size here (some hole) later = later

  Search-or :
      (rounds i size : ℕ) (rest : Option (Option (ℕ × ℕ)))
      → Returns (Search (suc i) (suc i + rounds) size list) rest
      → (r : Option (ℕ × ℕ)) → Search i (suc i) size list r
      → Returns
          (Search i (i + suc rounds) size list)
          (elim r [ none ↦ rest | some hole ↦ some (some hole) ])
  Search-or rounds i size rest later none here =
      Returns-imp (Search (suc i) (suc i + rounds) size list) (Search i (i + suc rounds) size list)
        rest later (Search-join rounds i size here)
  Search-or rounds i size rest later (some hole) here = here

  pub find_from-Search :
      (rounds i size : ℕ)
      → rounds ≤ 36 - i
      → Returns (Search i (i + rounds) size list) (find_from rounds i size list)
  unfolding find_from
  find_from-Search zero i size h = λ a n e k l. absurd (omega arith)
  find_from-Search (suc rounds) i size h =
      Returns-bind (Search i (suc i) size list) _ _ _ (find_at-Search i size (omega arith))
        (Search-or rounds i size _ (find_from-Search rounds (suc i) size (omega arith)))
