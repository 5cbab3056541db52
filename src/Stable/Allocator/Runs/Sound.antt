-- ===== src/Stable/Allocator/Runs/Sound.antt =====
-- The allocator in use is sound, and does not panic.
use ic_kit.Base.{ℕ, ◌+◌, ◌^◌, ◌≤◌, ◌<◌, ◌≡◌, subst, some, arith, length, Returns, Returns-imp}
use ic_kit.Certified.HashTree.{Bytes}
use ic_kit.Stable.Memory.{Memory, IsMemory, Kept}
use ic_kit.Stable.HoleList.Release.{Released}
use ic_kit.Stable.Allocator.{allocate, free}
use ic_kit.Stable.Allocator.Allocate.{Allocates, Allocated, allocate-Allocates, bytes_of}
use ic_kit.Stable.Allocator.Release.{free-Released}
use ic_kit.Stable.Allocator.Runs.{World, Step, gets, fails, frees, writes, IsSound, Run, here, next}
use ic_kit.Stable.Allocator.Runs.Keeps.{Headed-unique, gets-IsSound, frees-IsSound, writes-IsSound}

module _ {M : Type 0} {memory : Memory M} {Good : M → Type 0} (laws : IsMemory memory Good) where
  Step-IsSound : {w v : World M} → IsSound laws w → Step laws w v → IsSound laws v
  Step-IsSound {w} s (gets _ bytes addr got list mem small e headed) =
      let (addr', got', at, a) =
        subst (Returns (Allocates laws bytes w.list w.mem)) e
          (allocate-Allocates laws w.mem s.valid s.good bytes small) in
      let here : addr' ≡ addr = omega arith in
      let b = subst (λ x. Allocated laws bytes x got' w.list w.mem list mem) here a in
      let size = Headed-unique laws addr got' got mem b.headed headed in
      gets-IsSound laws w s bytes addr got list mem
        (subst (λ k. Allocated laws bytes addr k w.list w.mem list mem) size b)
  Step-IsSound {w} s (fails _ bytes list mem small e) =
      let (same, same', _) =
        subst (Returns (Allocates laws bytes w.list w.mem)) e
          (allocate-Allocates laws w.mem s.valid s.good bytes small) in
      rw (same, same')
        (record { valid = s.valid; good = s.good; taken = s.taken; disjoint = s.disjoint })
  Step-IsSound {w} s (frees _ addr got list mem there e) =
      let t = s.taken addr got there in
      let room : bytes_of laws w.mem ≤ bytes_of laws w.mem = omega arith in
      frees-IsSound laws w s addr got list mem there (
        subst (Returns (Released laws (bytes_of laws w.mem) addr got w.list w.mem)) e
          (free-Released laws s.valid w.mem s.good room t.0 t.1))
  Step-IsSound {w} s (writes _ addr got offset buf mem there low high e) =
      let t = (s.taken addr got there).0.sized in
      writes-IsSound laws w s addr got offset buf mem there low high
        (subst
          (Returns (λ n.
            Kept memory Good offset (length buf) w.mem n
            × (memory.stable_read offset (length buf) n ≡ some buf)))
          e (laws.write offset buf w.mem s.good (omega arith))).0

  -- From a state in which this is so, after any sequence of allocations of fewer than 2 ^ 63 bytes each, of frees
  -- of blocks in use by their pointers, and of writes to blocks in use behind their first words, the lists of
  -- holes are well formed, and of the blocks in use no two overlap, no byte is free, and each has its size in
  -- front of it.
  pub Run-IsSound : {w v : World M} → IsSound laws w → Run laws w v → IsSound laws v
  Run-IsSound s here = s
  Run-IsSound s (next r step) = Step-IsSound (Run-IsSound s r) step

  -- In such a state no allocation of fewer than 2 ^ 63 bytes, no free of a block in use and no write within one
  -- panics or runs forever.
  pub allocate-free-Returns :
      {w : World M}
      → IsSound laws w
      → ((bytes : ℕ)
          → bytes < 2 ^ 63
          → Returns (λ _. Unit {0}) (allocate memory bytes w.list w.mem))
        × ((addr got : ℕ)
            → w.live addr ≡ some got
            → Returns (λ _. Unit {0}) (free memory (addr + 8) w.list w.mem))
        × ((addr got offset : ℕ) (buf : Bytes)
            → w.live addr ≡ some got
            → addr + 8 ≤ offset
            → offset + length buf ≤ addr + got
            → Returns (λ _. Unit {0}) (memory.stable_write offset buf w.mem))
  allocate-free-Returns {w} s = (
    λ bytes small.
        Returns-imp (Allocates laws bytes w.list w.mem) _ _
          (allocate-Allocates laws w.mem s.valid s.good bytes small) λ _ _. tt,
    λ addr got there.
        let t = s.taken addr got there in
        let room : bytes_of laws w.mem ≤ bytes_of laws w.mem = omega arith in
        Returns-imp (Released laws (bytes_of laws w.mem) addr got w.list w.mem) _ _
          (free-Released laws s.valid w.mem s.good room t.0 t.1) λ _ _. tt,
    λ addr got offset buf there low high.
        let t = (s.taken addr got there).0.sized in
        Returns-imp
          (λ n.
            Kept memory Good offset (length buf) w.mem n
            × (memory.stable_read offset (length buf) n ≡ some buf))
          _ _ (laws.write offset buf w.mem s.good (omega arith)) λ _ _. tt,
  )
