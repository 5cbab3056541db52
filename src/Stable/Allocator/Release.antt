-- ===== src/Stable/Allocator/Release.antt =====
-- `free` of allocator.rs.
use ic_kit.Base.{ℕ, ◌+◌, ◌-◌, ◌*◌, ◌^◌, ◌≤◌, ◌≡◌, false, ltb, arith, Returns}
use ic_kit.Stable.Memory.{Memory, IsMemory}
use ic_kit.Stable.HoleList.{HoleList}
use ic_kit.Stable.HoleList.Invariant.{IsHoleList, size_at}
use ic_kit.Stable.HoleList.Merge.{IsTaken}
use ic_kit.Stable.HoleList.Insert.{Headed}
use ic_kit.Stable.HoleList.Release.{Released, insert-Released}
use ic_kit.Stable.Allocator.{free}

module _ {M : Type 0} {memory : Memory M} {Good : M → Type 0} (laws : IsMemory memory Good) where
  -- A block that is taken and whose first word verifies to its size is freed by its pointer, 8 bytes into it:
  -- the lists are well formed again, the free bytes are those that were free and those of the block, and no
  -- byte of the memory that is not free has changed.
  pub free-Released :
      {limit addr size : ℕ} {list : HoleList} (valid : IsHoleList limit list) (m : M)
      → Good m
      → limit ≤ memory.stable_size m * 2 ^ 16
      → IsTaken limit addr size (size_at list)
      → Headed laws addr size m
      → Returns (Released laws limit addr size list m) (free memory (addr + 8) list m)
  unfolding free
  free-Released {limit} {addr} {size} {list} valid m good room taken (word, read, verified) =
      let past : ltb (addr + 8) 8 ≡ false = ground arith in
      let back : addr + 8 - 8 ≡ addr = omega arith in
      rw (past, back, read) (rw verified (insert-Released laws valid m good room taken))
