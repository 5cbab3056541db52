-- ===== src/Stable/HoleList/Release.antt =====
-- `insert` of hole.rs as a whole: a block is freed.
use ic_kit.Base.{
  ℕ, ◌+◌, ◌*◌, ◌^◌, ◌≤◌, ◌<◌, ◌≡◌, ◌≢◌, refl, sym, subst, ◌∙◌, Option, none, some, ltb, leb, arith,
  ◌↔◌, Bool-cases, inl, inr, Returns, Returns-imp, Returns-bind,
}
use ic_kit.Stable.Memory.{Memory, IsMemory, Kept}
use ic_kit.Stable.HoleList.{HoleList}
use ic_kit.Stable.HoleList.Blocks.{insert}
use ic_kit.Stable.HoleList.Search.{get_next_block, get_previous_block}
use ic_kit.Stable.HoleList.Invariant.{IsHoleList, size_at}
use ic_kit.Stable.HoleList.Link.{Fresh}
use ic_kit.Stable.HoleList.Merge.{Sizes, Free, IsTaken, without, extra, start, merged-Fresh}
use ic_kit.Stable.HoleList.Neighbours.{
  Before, Behind, get_previous_block-Before, get_next_block-Behind,
}
use ic_kit.Stable.HoleList.Insert.{Inserted, raw_insert-Inserted}
use ic_kit.Stable.HoleList.Free.{Fresh-ext, FreeOrIn, Absorbed, absorb-Absorbed, merged-Free}

extra-ext : (p : Option ℕ) (s t : Sizes) → ((x : ℕ) → t x ≡ s x) → extra p t ≡ extra p s
extra-ext none s t e = refl
extra-ext (some a) s t e = ground (arith, e a)

module _ {M : Type 0} {memory : Memory M} {Good : M → Type 0} (laws : IsMemory memory Good) where
  -- What is read outside the free bytes does not change.
  abbrev pub Untouched : Sizes → M → M → Type 0
  Untouched sizes m n =
      (o k : ℕ)
      → 0 < k
      → ((x : ℕ) → o ≤ x → x < o + k → ¬ Free sizes x)
      → memory.stable_read o k n ≡ memory.stable_read o k m

  pub Kept-Untouched :
      (addr size : ℕ) (sizes : Sizes) (m n : M)
      → 0 < size
      → sizes addr ≡ some size
      → Kept memory Good addr size m n
      → Untouched sizes m n
  Kept-Untouched addr size sizes m n pos here kept o k p outside =
      kept.same o k (elim (Bool-cases (leb (o + k) addr)) [
        | inl e ↦ inl (ground arith)
        | inr e ↦ elim (Bool-cases (leb (addr + size) o)) [
          | inl f ↦ inr (ground arith)
          | inr f ↦ elim (Bool-cases (ltb o addr)) [
            | inl g ↦ absurd (
                outside addr (ground arith) (ground arith)
                  (addr, size, here, omega arith, omega arith))
            | inr g ↦ absurd (
                outside o (omega arith) (omega arith)
                  (addr, size, here, ground arith, ground arith))
          ]
        ]
      ])

  -- The block is free, in lists that are well formed, and the bytes that are not free are as before.
  abbrev pub Released : ℕ → ℕ → ℕ → HoleList → M → HoleList × M → Type 0
  Released limit addr size list m (after, n) =
      IsHoleList limit after
      × ((x : ℕ) → Free (size_at after) x ↔ FreeOrIn addr size (size_at list) x)
      × Good n
      × (memory.stable_size n ≡ memory.stable_size m)
      × Untouched (size_at after) m n

  module _ {limit addr size : ℕ} {list : HoleList} (valid : IsHoleList limit list) (m : M)
      (good : Good m) (room : limit ≤ memory.stable_size m * 2 ^ 16)
      (taken : IsTaken limit addr size (size_at list)) where
    open valid use {apart}

    both_there :
        (p b : Option ℕ)
        → Before (size_at list) addr p
        → Behind (size_at list) (addr + size) b
        → ((a : ℕ) → b ≡ some a → size_at list a ≢ none)
          × ((a : ℕ) → p ≡ some a → without b (size_at list) a ≢ none)
    both_there none none h k = (λ a e. absurd (ground arith), λ a e. absurd (ground arith))
    both_there none (some b) h (at, (m, k)) = (λ a e f. ground arith, λ a e. absurd (ground arith))
    both_there (some p) none (n, h, at) k = (λ a e. absurd (ground arith), λ a e f. ground arith)
    both_there (some p) (some b) (n, h, at) (at', (m, k)) =
        (λ a e f. ground arith, λ a e f. ground (arith, taken.sized))

    enough :
        (p b : Option ℕ)
        → Before (size_at list) addr p
        → Behind (size_at list) (addr + size) b
        → start p addr + (size + extra b (size_at list) + extra p (without b (size_at list)))
          ≤ 2 ^ 39
    enough p b h k =
        let f = (merged-Fresh apart taken p b h k).sized in let l = valid.limit_le in omega arith

    -- A taken block of at least 16 bytes is inserted without a fault: the lists are well formed again, with
    -- holes that neither overlap nor touch; the free bytes are those that were free and those of the block; and
    -- no byte of the memory that is not free has changed.
    pub insert-Released : Returns (Released limit addr size list m) (insert memory addr size list m)
    unfolding insert
    insert-Released =
        let b = get_next_block addr size list in
        let p = get_previous_block addr list in
        let h = get_previous_block-Before valid addr (let s = taken.sized in omega arith) in
        let k = get_next_block-Behind valid addr size (let s = taken.sized in s.1) taken.clear in
        let there = both_there p b h k in
        let bound = enough p b h k in
        Returns-bind (Absorbed limit b size list) _ _ _
          (absorb-Absorbed b size valid there.0 (omega arith))
          λ (size1, list1) (valid1, e1, change1).
            let moved = extra-ext p (without b (size_at list)) (size_at list1) change1 in
            Returns-bind (Absorbed limit p size1 list1) _ _ _
              (absorb-Absorbed p size1 valid1 (λ a e f. there.1 a e (sym (change1 a) ∙ f))
                (omega arith))
              λ (size2, list2) (valid2, e2, change2).
                let left : (x : ℕ) → size_at list2 x ≡ without p (without b (size_at list)) x =
                  λ x. ground (arith, change2 x, change1 x) in
                let total : size2
                    ≡ size + extra b (size_at list) + extra p (without b (size_at list)) =
                  omega arith in
                let fresh =
                  subst (λ s. Fresh limit (start p addr) s (size_at list2)) (sym total)
                    (Fresh-ext (without p (without b (size_at list))) (size_at list2) left
                      (merged-Fresh apart taken p b h k)) in
                Returns-imp (Inserted laws limit (start p addr) size2 list2 m)
                  (Released limit addr size list m) _
                  (raw_insert-Inserted laws valid2 (start p addr) size2 m fresh good room)
                  λ (after, n) ((ok, change3), kept). (
                    ok,
                    merged-Free apart taken (size_at after) p b h k
                        λ x. ground (arith, change3 x, left x, total),
                    kept.good,
                    kept.same_size,
                    Kept-Untouched (start p addr) size2 (size_at after) m n
                        (let s = fresh.sized in omega arith)
                        (ground (arith, change3 (start p addr))) kept,
                  )
