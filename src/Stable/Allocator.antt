-- ===== src/Stable/Allocator.antt =====
-- ic-kit-stable/src/core/allocator.rs: the allocator, which is its list of holes, over a stable memory that
-- it owns.
pub mod Release
pub mod Grow
pub mod Allocate
pub mod Runs
use ic_kit.Base.{ℕ, ◌+◌, ◌-◌, ◌*◌, ◌/◌, ◌%◌, ◌^◌, Option, none, some, ◌>>=◌, ltb, if◌then◌else◌}
use ic_kit.Stable.Memory.{Memory}
use ic_kit.Stable.Checksum.{verify}
use ic_kit.Stable.HoleList.{HoleList}
use ic_kit.Stable.HoleList.Blocks.{from_bytes, insert, find}

module _ {M : Type 0} (memory : Memory M) where
  -- What `allocate` does with the page at which the new pages start. `none` for the address is the error
  -- `OutOfMemory`, and `none` for the whole a panic, such as that of `expect`.
  unfoldable pub use_pages : ℕ → ℕ → Option ℕ → HoleList → M → Option (Option ℕ × HoleList × M)
  use_pages size new_pages none list mem = some (none, list, mem)
  use_pages size new_pages (some start) list mem = do
    (list, mem) ← insert memory (start * 2 ^ 16 % 2 ^ 64) (new_pages * 2 ^ 16 % 2 ^ 64) list mem
    (found, list, mem) ← find memory size list mem
    (addr, _) ← found
    some (some ((addr + 8) % 2 ^ 64), list, mem)

  -- The second part of `allocate`, where no hole is large enough.
  unfoldable pub grow_and_find : ℕ → HoleList → M → Option (Option ℕ × HoleList × M)
  unfolding use_pages
  grow_and_find size list mem =
      let new_pages = (size + 2 ^ 16 - 1) % 2 ^ 64 / 2 ^ 16 in
      let (mem', start) = memory.stable_grow new_pages mem in
      use_pages size new_pages start list mem'

  -- `StableAllocator::allocate`
  unfoldable pub allocate : ℕ → HoleList → M → Option (Option ℕ × HoleList × M)
  unfolding grow_and_find
  allocate bytes list mem =
      let size = (bytes + 8) % 2 ^ 64 in
      do
        (found, list, mem) ← find memory size list mem
        elim found [
          | some (addr, _) ↦ some (some ((addr + 8) % 2 ^ 64), list, mem)
          | none ↦ grow_and_find size list mem
        ]

  -- What `free` does with the size that is read, if the word verifies; outside tests, it is passed over if not.
  unfoldable pub free_block : ℕ → Option ℕ → HoleList → M → Option (HoleList × M)
  free_block addr none list mem = some (list, mem)
  free_block addr (some size) list mem = insert memory addr size list mem

  -- `StableAllocator::free`
  unfoldable pub free : ℕ → HoleList → M → Option (HoleList × M)
  unfolding free_block
  free pointer list mem =
      if ltb pointer 8
      then some (list, mem)
      else let addr = pointer - 8 in
        do word ← memory.stable_read addr 8 mem; free_block addr (verify (from_bytes word)) list mem
