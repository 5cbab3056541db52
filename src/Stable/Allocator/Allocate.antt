-- ===== src/Stable/Allocator/Allocate.antt =====
-- `allocate` of allocator.rs.
use ic_kit.Base.{
  ℕ, ◌+◌, ◌-◌, ◌*◌, ◌/◌, ◌%◌, ◌^◌, ◌≤◌, ◌<◌, ◌≡◌, ◌∙◌, ◌↔◌, ◌⊎◌, inl, inr, refl, sym, subst, Option,
  none, some, ◌>>=◌, arith, Returns, Returns-bind,
}
use ic_kit.Stable.Memory.{Memory, IsMemory, Grown}
use ic_kit.Stable.HoleList.{HoleList}
use ic_kit.Stable.HoleList.Blocks.{align, find}
use ic_kit.Stable.HoleList.Invariant.{IsHoleList, size_at}
use ic_kit.Stable.HoleList.Merge.{Free, IsTaken}
use ic_kit.Stable.HoleList.Insert.{Headed}
use ic_kit.Stable.HoleList.Release.{Released, insert-Released}
use ic_kit.Stable.HoleList.Take.{Taken, Finds, find-Finds, align_bounds}
use ic_kit.Stable.Allocator.{allocate, grow_and_find, use_pages}
use ic_kit.Stable.Allocator.Grow.{IsHoleList-limit, above-IsTaken, one_hole}

module _ {M : Type 0} {memory : Memory M} {Good : M → Type 0} (laws : IsMemory memory Good) where
  -- The number of bytes of the memory.
  abbrev pub bytes_of : M → ℕ
  bytes_of m = memory.stable_size m * 2 ^ 16

  -- The byte at `x` is free, or comes when the memory grows to the size that it has in `n`.
  abbrev pub Available : HoleList → M → M → ℕ → Type 0
  Available list m n x = Free (size_at list) x ⊎ ((bytes_of m ≤ x) × (x < bytes_of n))

  -- How the allocation of the block of `got` bytes at `addr` changes the lists and the memory.
  pub record Allocated (bytes addr got : ℕ) (list : HoleList) (m : M) (after : HoleList) (n : M)
      : Type 0 where
    pub large : bytes + 8 ≤ got
    pub valid : IsHoleList (bytes_of n) after
    pub taken : IsTaken (bytes_of n) addr got (size_at after)
    pub headed : Headed laws addr got n
    pub good : Good n
    pub no_smaller : bytes_of m ≤ bytes_of n
    pub was_free : (x : ℕ) → addr ≤ x → x < addr + got → Available list m n x
    pub now_free :
        (x : ℕ) → Free (size_at after) x ↔ (Available list m n x × ((x < addr) ⊎ (addr + got ≤ x)))
    pub kept :
        (o k : ℕ)
        → 0 < k
        → o + k ≤ bytes_of m
        → ((x : ℕ) → o ≤ x → x < o + k → ¬ Free (size_at list) x)
        → memory.stable_read o k n ≡ memory.stable_read o k m

  -- `allocate` by its result: the error, or a pointer.
  abbrev pub Allocates : ℕ → HoleList → M → Option ℕ × HoleList × M → Type 0
  Allocates bytes list m (none, after, n) =
      (after ≡ list) × (n ≡ m) × ((a k : ℕ) → size_at list a ≡ some k → k < align (bytes + 8))
  Allocates bytes list m (some pointer, after, n) =
      (addr : ℕ) × (got : ℕ) × (pointer ≡ addr + 8) × Allocated bytes addr got list m after n

  module _ {list : HoleList} (m : M) (valid : IsHoleList (bytes_of m) list) (good : Good m)
      (bytes : ℕ) (small : bytes < 2 ^ 63) where
    -- Without growing.
    Taken-Allocated :
        (addr got : ℕ) (after : HoleList) (n : M)
        → Taken laws valid m good (omega arith) (align (bytes + 8)) ((addr, got), after, n)
        → Allocated bytes addr got list m after n
    Taken-Allocated addr got after n (large, ok, taken, was, now, headed, good', size, same) =
        let a = align_bounds (bytes + 8) (omega arith) in
        let e : bytes_of m ≡ bytes_of n = omega arith in
        record {
          large = omega arith;
          valid = subst (λ l. IsHoleList l after) e ok;
          taken = subst (λ l. IsTaken l addr got (size_at after)) e taken;
          headed = headed;
          good = good';
          no_smaller = omega arith;
          was_free = λ x l u. inl (was x l u);
          now_free = λ x. (
            λ f. let r = (now x).0 f in (inl r.0, r.1),
            λ (f, out). elim f [
              | inl old ↦ (now x).1 (old, out)
              | inr (l, u) ↦ absurd (omega arith)
            ],
          );
          kept = λ o k p h f. same o k p f;
        }

    -- After growing, by `pages`.
    module _ (pages : ℕ) (enough : bytes + 8 ≤ pages * 2 ^ 16) (grown : M) (good' : Good grown)
        (size' : memory.stable_size grown ≡ memory.stable_size m + pages)
        (reads : (o k : ℕ)
          → o + k ≤ bytes_of m
          → memory.stable_read o k grown ≡ memory.stable_read o k m) where
      total : bytes_of m + pages * 2 ^ 16 ≡ bytes_of grown
      total = omega arith

      most : bytes_of grown ≤ 2 ^ 39
      most = omega (arith, laws.most grown good')

      larger : IsHoleList (bytes_of grown) list
      larger = IsHoleList-limit (omega (arith, total)) most valid

      fresh_pages : IsTaken (bytes_of grown) (bytes_of m) (pages * 2 ^ 16) (size_at list)
      fresh_pages =
          subst (λ l. IsTaken l (bytes_of m) (pages * 2 ^ 16) (size_at list)) total
            (above-IsTaken valid (omega arith))

      module _ (list1 : HoleList) (m1 : M)
          (released : Released laws
            (bytes_of grown)
            (bytes_of m)
            (pages * 2 ^ 16)
            list
            grown
            (list1, m1)) where
        room_in : bytes_of grown ≤ bytes_of m1
        room_in = omega (arith, released.3)

        new_bytes :
            (x : ℕ) → bytes_of m ≤ x → x < bytes_of m + pages * 2 ^ 16 → Free (size_at list1) x
        new_bytes x l u = (released.1 x).1 (inr (l, u))

        still_taken :
            (o k : ℕ)
            → o + k ≤ bytes_of m
            → ((x : ℕ) → o ≤ x → x < o + k → ¬ Free (size_at list) x)
            → (x : ℕ) → o ≤ x
            → x < o + k
            → ¬ Free (size_at list1) x
        still_taken o k h f x l u g = elim ((released.1 x).0 g) [
          | inl old ↦ f x l u old
          | inr (above, _) ↦ absurd (omega arith)
        ]

        found_again :
            (found : Option (ℕ × ℕ)) (after : HoleList) (n : M)
            → Finds laws released.0 m1 released.2 room_in (align (bytes + 8)) (found, after, n)
            → Returns
                (Allocates bytes list m)
                (do (addr, _) ← found; some (some ((addr + 8) % 2 ^ 64), after, n))
        found_again none after n (_, _, none_fits) =
            let a = align_bounds (bytes + 8) (omega arith) in
            let (b, k, e, h) =
              one_hole (size_at list1) (bytes_of m) (pages * 2 ^ 16) released.0.apart (omega arith)
                new_bytes in
            let l = none_fits b k e in
            absurd (omega (arith, a.2 (pages * 2 ^ 16) enough (omega arith) (omega arith)))
        found_again (some (addr, got)) after n
              (large, ok, taken, was, now, headed, good'', size, same) =
            let a = align_bounds (bytes + 8) (omega arith) in
            let e : bytes_of grown ≡ bytes_of n = omega (arith, released.3) in
            let s = taken.sized in
            let exact : (addr + 8) % 2 ^ 64 ≡ addr + 8 = omega (arith, most) in
            (
              addr,
              got,
              exact,
              record {
                large = omega arith;
                valid = subst (λ l. IsHoleList l after) e ok;
                taken = subst (λ l. IsTaken l addr got (size_at after)) e taken;
                headed = headed;
                good = good'';
                no_smaller = omega (arith, total);
                was_free = λ x l u. available x (was x l u);
                now_free = λ x. (
                  λ f. let r = (now x).0 f in (available x r.0, r.1),
                  λ (f, out). (now x).1 (
                    elim f [
                      | inl old ↦ (released.1 x).1 (inl old)
                      | inr (l, u) ↦ new_bytes x l (omega (arith, total))
                    ],
                    out,
                  ),
                );
                kept = λ o k p h f.
                    let still = still_taken o k h f in
                    same o k p still ∙ released.4 o k p still ∙ reads o k h;
              },
            )
          where
            available : (x : ℕ) → Free (size_at list1) x → Available list m n x
            available x f = elim ((released.1 x).0 f) [
              | inl old ↦ inl old
              | inr (l, u) ↦ inr (l, omega (arith, total))
            ]

    use_pages-Allocates :
        (pages : ℕ) (start : Option ℕ) (grown : M)
        → bytes + 8 ≤ pages * 2 ^ 16
        → Grown memory Good pages m grown start
        → ((a k : ℕ) → size_at list a ≡ some k → k < align (bytes + 8))
        → Returns (Allocates bytes list m) (use_pages memory (bytes + 8) pages start list grown)
    unfolding use_pages
    use_pages-Allocates pages none grown enough same none_fits = (refl, same, none_fits)
    use_pages-Allocates pages (some start) grown enough (at, size', good', reads) none_fits =
        let t : memory.stable_size grown ≡ memory.stable_size m + pages = omega arith in
        let r = λ (o k : ℕ) (h : o + k ≤ bytes_of m). reads o k (omega arith) in
        let limit = most pages enough grown good' t r in
        let exact : start * 2 ^ 16 % 2 ^ 64 ≡ bytes_of m = omega arith in
        let exact' : pages * 2 ^ 16 % 2 ^ 64 ≡ pages * 2 ^ 16 = omega arith in
        let room : bytes_of grown ≤ bytes_of grown = omega arith in
        rw (exact, exact')
          (Returns-bind (Released laws (bytes_of grown) (bytes_of m) (pages * 2 ^ 16) list grown) _
            _ _
            (insert-Released laws (larger pages enough grown good' t r) grown good' room
              (fresh_pages pages enough grown good' t r))
            λ (list1, m1) released.
              let enough1 = room_in pages enough grown good' t r list1 m1 released in
              Returns-bind (Finds laws released.0 m1 released.2 enough1 (align (bytes + 8))) _ _ _
                (find-Finds laws released.0 m1 released.2 enough1 (bytes + 8) (omega arith))
                λ (found, after, n) finds.
                  found_again pages enough grown good' t r list1 m1 released found after n finds)

    grow_and_find-Allocates :
        ((a k : ℕ) → size_at list a ≡ some k → k < align (bytes + 8))
        → Returns (Allocates bytes list m) (grow_and_find memory (bytes + 8) list m)
    unfolding grow_and_find
    grow_and_find-Allocates none_fits =
        let pages = (bytes + 8 + 2 ^ 16 - 1) / 2 ^ 16 in
        let exact : (bytes + 8 + 2 ^ 16 - 1) % 2 ^ 64 ≡ bytes + 8 + 2 ^ 16 - 1 = omega arith in
        let enough : bytes + 8 ≤ pages * 2 ^ 16 = omega arith in
        rw exact (
          use_pages-Allocates pages (memory.stable_grow pages m).1 (memory.stable_grow pages m).0
            enough (laws.grow pages m good (omega arith)) none_fits)

    found_first :
        (room : bytes_of m ≤ bytes_of m) (size : ℕ)
        → size ≡ bytes + 8
        → (found : Option (ℕ × ℕ)) (after : HoleList) (n : M)
        → Finds laws valid m good room (align (bytes + 8)) (found, after, n)
        → Returns (Allocates bytes list m) (elim found [
          | none ↦ grow_and_find memory size after n
          | some (addr, _) ↦ some (some ((addr + 8) % 2 ^ 64), after, n)
        ])
    found_first room size e none after n (same, same', none_fits) =
        rw (e, same, same') (grow_and_find-Allocates none_fits)
    found_first room size e (some (addr, got)) after n taken =
        let allocated = Taken-Allocated addr got after n taken in
        let s = allocated.taken.sized in
        let limit = allocated.valid.limit_le in (addr, got, omega arith, allocated)

    -- Where fewer than 2 ^ 63 bytes are asked for, `allocate` comes to an end without a panic: the condition that is called
    -- unreachable is. It returns an error only where no hole is large enough, and then nothing has changed. Else
    -- it returns a pointer 8 bytes into a block that has the bytes, whose first word verifies to its size: the
    -- block's bytes were free, or new; afterwards just those are not free; the lists of holes are well formed
    -- again; and no byte of the memory that was not free has changed.
    pub allocate-Allocates : Returns (Allocates bytes list m) (allocate memory bytes list m)
    unfolding allocate
    allocate-Allocates =
        let exact : (bytes + 8) % 2 ^ 64 ≡ bytes + 8 = omega arith in
        let room : bytes_of m ≤ bytes_of m = omega arith in
        Returns-bind (Finds laws valid m good room (align (bytes + 8))) _ _ _
          (subst
            (λ size.
              Returns (Finds laws valid m good room (align (bytes + 8))) (find memory size list m))
            (sym exact) (find-Finds laws valid m good room (bytes + 8) (omega arith)))
          λ (found, after, n). found_first room ((bytes + 8) % 2 ^ 64) exact found after n
