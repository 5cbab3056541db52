-- ===== src/Stable/HoleList/Take.antt =====
-- `find` of hole.rs as a whole: a block is taken.
use ic_kit.Base.{
  ℕ, suc, ◌+◌, ◌-◌, ◌*◌, ◌%◌, ◌^◌, ◌≤◌, ◌<◌, ◌≡◌, ◌≢◌, refl, subst, ◌∙◌, Option, none, some, ◌>>=◌,
  ltb, leb, arith, if◌then◌else◌, ◌↔◌, Option-cases, Bool-cases, ◌⊎◌, inl, inr, Returns,
  Returns-bind, length, [],
}
use ic_kit.Dict
use ic_kit.Stable.Memory.{Memory, IsMemory, Kept}
use ic_kit.Stable.Hole.{min_allocation_size}
use ic_kit.Stable.HoleList.{HoleList}
use ic_kit.Stable.HoleList.Blocks.{align, put_back, take_block, find}
use ic_kit.Stable.HoleList.Search.{collect}
use ic_kit.Stable.HoleList.Index.{get_log2_index, get_log2_index_mono}
use ic_kit.Stable.HoleList.Invariant.{IsHoleList, size_at}
use ic_kit.Stable.HoleList.Remove.{Removed, remove_hole-Removed}
use ic_kit.Stable.HoleList.Merge.{Free, IsTaken}
use ic_kit.Stable.HoleList.Carve.{Carved, rest-Fresh, carved-IsTaken, block-Free, carved-Free}
use ic_kit.Stable.HoleList.Insert.{
  Inserted, raw_insert-Inserted, IsHeader, to_header-IsHeader, Headed, write_header,
}
use ic_kit.Stable.HoleList.Release.{Untouched, Kept-Untouched}
use ic_kit.Stable.HoleList.Level.{Search, find_from-Search}
use ic_kit.Stable.HoleList.Walk.{Level, collect-Level}

-- The size that is looked for.
pub align_bounds :
    (size : ℕ)
    → size + 3 < 2 ^ 64
    → (size ≤ align size)
      × (16 ≤ align size)
      × ((t : ℕ) → size ≤ t → 16 ≤ t → t % 4 ≡ 0 → align size ≤ t)
unfolding align
align_bounds size h = (ground arith, ground arith, λ t p q r. ground arith)

align_bound : (size : ℕ) → align size < 2 ^ 64
unfolding align
align_bound size = omega arith

module _ {M : Type 0} {memory : Memory M} {Good : M → Type 0} (laws : IsMemory memory Good)
    {limit : ℕ} {list : HoleList} (valid : IsHoleList limit list) (m : M) (good : Good m)
    (room : limit ≤ memory.stable_size m * 2 ^ 16) where
  open valid use {apart}

  -- The hole at `addr` is gone but for a rest of it.
  abbrev Rested : ℕ → ℕ → ℕ → ℕ × HoleList × M → Type 0
  Rested addr size whole (got, after, n) =
      IsHoleList limit after
      × Kept memory Good addr whole m n
      × (size ≤ got)
      × Carved addr got whole (size_at list) (size_at after)

  put_back-Rested :
      (addr size delta : ℕ) (mid : HoleList)
      → 16 ≤ size
      → size_at list addr ≡ some (size + delta)
      → Removed limit addr list mid
      → Returns (Rested addr size (size + delta)) (put_back memory addr size delta mid m)
  unfolding put_back
  put_back-Rested addr size delta mid h here (ok, change) =
      let s = apart.sized addr (size + delta) here in
      let l = valid.limit_le in
      elim (Bool-cases (leb min_allocation_size delta)) [
        | inl e ↦
            let exact : (addr + size) % 2 ^ 64 ≡ addr + size = omega arith in
            let fresh = rest-Fresh apart here h delta (ground arith) refl change in
            rw (e, exact)
              (Returns-bind (Inserted laws limit (addr + size) delta mid m) _ _ _
                (raw_insert-Inserted laws ok (addr + size) delta m fresh good room)
                λ (after, n) ((ok', change'), kept). (
                  ok',
                  record {
                    good = kept.good;
                    same_size = kept.same_size;
                    same = λ o k d. kept.same o k (ground arith);
                  },
                  omega arith,
                  inr (delta, ground arith, refl, λ x. ground (arith, change' x, change x)),
                ))
        | inr e ↦
            let exact : (size + delta) % 2 ^ 64 ≡ size + delta = omega arith in
            rw (e, exact)
              (
                ok,
                record { good = good; same_size = refl; same = λ o k d. refl },
                omega arith,
                inl (refl, change),
              )
      ]

  -- What `find` returns and leaves behind.
  abbrev pub Taken : ℕ → (ℕ × ℕ) × HoleList × M → Type 0
  Taken size ((addr, got), after, n) =
      (size ≤ got)
      × IsHoleList limit after
      × IsTaken limit addr got (size_at after)
      × ((x : ℕ) → addr ≤ x → x < addr + got → Free (size_at list) x)
      × ((x : ℕ)
          → Free (size_at after) x ↔ (Free (size_at list) x × ((x < addr) ⊎ (addr + got ≤ x))))
      × Headed laws addr got n
      × Good n
      × (memory.stable_size n ≡ memory.stable_size m)
      × Untouched laws (size_at list) m n

  take_block-Taken :
      (addr size delta : ℕ)
      → 16 ≤ size
      → size_at list addr ≡ some (size + delta)
      → Returns (Taken size) (take_block memory addr size delta list m)
  unfolding take_block
  take_block-Taken addr size delta h here = elim (Option-cases (Dict.find addr list.map)) [
    | inl e ↦ absurd (ground arith)
    | inr (hole, e) ↦
        let s = apart.sized addr (size + delta) here in
        let l = valid.limit_le in
        Returns-bind (Removed limit addr list) _ _ _ (remove_hole-Removed valid addr hole e)
          λ mid removed.
            Returns-bind (Rested addr size (size + delta)) _ _ _
              (put_back-Rested addr size delta mid h here removed)
              λ (got, after, n) (ok, kept, enough, carved).
                let fits : got ≤ size + delta = ground arith in
                Returns-bind (IsHeader got) _ _ _
                  (to_header-IsHeader got none (omega arith) (omega arith))
                  λ header is.
                    Returns-bind (λ o. Kept memory Good addr 16 n o × Headed laws addr got o) _ _ _
                      (write_header laws addr got header n kept.good is
                        (let z = kept.same_size in omega arith))
                      λ o (last, headed).
                        let all : Kept memory Good addr (size + delta) m o = record {
                          good = last.good;
                          same_size = last.same_size ∙ kept.same_size;
                          same = λ i k d. last.same i k (ground arith) ∙ kept.same i k d;
                        } in
                        (
                          enough,
                          ok,
                          carved-IsTaken apart here (omega arith) carved,
                          block-Free apart here (omega arith) carved,
                          carved-Free apart here (omega arith) carved,
                          headed,
                          last.good,
                          all.same_size,
                          Kept-Untouched laws addr (size + delta) (size_at list) m o (omega arith)
                              here all,
                        )
  ]

  -- A hole has a list that is not empty.
  level_root : (a n : ℕ) → size_at list a ≡ some n → list.roots (get_log2_index n) ≢ none
  unfolding collect
  level_root a n e none_there =
      let w : Level valid (get_log2_index n) [] =
        subst
          (λ r.
            Returns (Level valid (get_log2_index n)) (collect (suc (length list.map)) r list.map))
          none_there (collect-Level valid (get_log2_index n)) in
      (w a n).1 (e, refl)

  -- Between the boundaries.
  level_inside :
      (a n : ℕ)
      → size_at list a ≡ some n
      → (list.roots_left_boundary ≤ get_log2_index n)
        × (get_log2_index n < list.roots_right_boundary)
  level_inside a n e =
      let b = valid.bounded in
      let r = level_root a n e in ground (arith, b.0.1 (get_log2_index n), b.1.1 (get_log2_index n))

  -- `find` by its result.
  abbrev pub Finds : ℕ → Option (ℕ × ℕ) × HoleList × M → Type 0
  Finds size (none, after, n) =
      (after ≡ list) × (n ≡ m) × ((a k : ℕ) → size_at list a ≡ some k → k < size)
  Finds size (some block, after, n) = Taken size (block, after, n)

  first_index : ℕ → ℕ
  first_index size =
      if ltb (get_log2_index size) list.roots_left_boundary
      then list.roots_left_boundary
      else get_log2_index size

  first_index_lem :
      (size a n : ℕ)
      → 16 ≤ size
      → size < 2 ^ 64
      → size_at list a ≡ some n
      → size ≤ n
      → first_index size ≤ get_log2_index n
  unfolding first_index
  first_index_lem size a n h k e l =
      let s = apart.sized a n e in
      let t = valid.limit_le in
      let mono = get_log2_index_mono size n h l (omega arith) in ground (arith, level_inside a n e)

  Search-Finds :
      (size j : ℕ)
      → 16 ≤ size
      → size < 2 ^ 64
      → list.roots_right_boundary ≤ j
      → (r : Option (ℕ × ℕ)) → Search (first_index size) j size list r
      → Returns (Finds size) (elim r [
        | none ↦ some (none, list, m)
        | some (addr, delta) ↦ do
          (block, after, n) ← take_block memory addr size delta list m
          some (some block, after, n)
      ])
  Search-Finds size j h k b none search = (
    refl,
    refl,
    λ a n e. elim (Bool-cases (ltb n size)) [
      | inl l ↦ ground arith
      | inr l ↦
          search a n e (first_index_lem size a n h k e (ground arith))
            (let i = level_inside a n e in omega arith)
    ],
  )
  Search-Finds size j h k b (some (addr, delta)) search =
      Returns-bind (Taken size) _ _ _ (take_block-Taken addr size delta h search)
        λ (block, after, n) t. t

  -- Where the size does not overflow, `find` comes to an end without a panic. It returns nothing only where no
  -- hole has that size, aligned, and then it changes nothing. Else it returns a block that has it: its bytes
  -- were free, and afterwards just those are not; the lists are well formed again, with holes that neither
  -- overlap nor touch; the block's first word verifies to its size; and outside what was free no byte of the
  -- memory has changed.
  pub find-Finds :
      (size : ℕ) → size + 3 < 2 ^ 64 → Returns (Finds (align size)) (find memory size list m)
  unfolding find first_index
  find-Finds size h =
      let a = align_bounds size h in
      let bound : align size < 2 ^ 64 = align_bound size in
      let i = first_index (align size) in
      let rounds = list.roots_right_boundary - i in
      Returns-bind (Search i (i + rounds) (align size) list) _ _ _
        (find_from-Search valid rounds i (align size) (let b = valid.bounded.0.0 in omega arith))
        (Search-Finds (align size) (i + rounds) a.1 bound (omega arith))
