-- ===== src/Stable/HoleList/Blocks.antt =====
-- ic-kit-stable/src/core/hole.rs: freeing a block and finding one, with the headers that are written to
-- the stable memory.
use ic_kit.Base.{
  ℕ, ◌+◌, ◌-◌, ◌*◌, ◌%◌, ◌^◌, Bool, false, Option, none, some, ◌>>=◌, [], ◌∷◌, ◌++◌, ltb, leb,
  unwrap_or, if◌then◌else◌,
}
use ic_kit.Dict
use ic_kit.Certified.HashTree.{Bytes}
use ic_kit.Runtime.Canister.Guard.{to_le_bytes}
use ic_kit.Stable.Memory.{Memory}
use ic_kit.Stable.Checksum.{seal}
use ic_kit.Stable.Hole.{min_allocation_size}
use ic_kit.Stable.HoleList.{HoleList, root, link_hole, remove_hole}
use ic_kit.Stable.HoleList.Index.{get_log2_index}
use ic_kit.Stable.HoleList.Search.{get_previous_block, get_next_block, find_from}

-- The number of eight bytes in memory, the lowest first.
unfoldable pub from_bytes : Bytes → ℕ
from_bytes [] = 0
from_bytes (b ∷ bytes) = b + 256 * from_bytes bytes

-- A `HoleHeader`, which is packed: `CheckedU40::new(size)` and the address of the next hole.
unfoldable pub to_header : ℕ → Option ℕ → Option Bytes
unfolding to_le_bytes
to_header size next = do
  checked ← seal size
  some (to_le_bytes 8 checked ++ to_le_bytes 8 (elim next [ none ↦ 0 | some addr ↦ addr ]))

-- `max(MIN_ALLOCATION_SIZE)`, and up to a multiple of 4.
unfoldable pub align : ℕ → ℕ
align size =
    let padded =
      ((if ltb size min_allocation_size then min_allocation_size else size) + 3) % 2 ^ 64 in
    padded - padded % 4

-- A neighbour that is merged: its size is added, and it is no hole any more.
unfoldable pub absorb : Option ℕ → ℕ → HoleList → Option (ℕ × HoleList)
absorb none size list = some (size, list)
absorb (some addr) size list = do
  hole ← Dict.find addr list.map
  list ← remove_hole addr list
  some ((size + hole.size) % 2 ^ 64, list)

module _ {M : Type 0} (memory : Memory M) where
  -- `HoleList::raw_insert`
  unfoldable pub raw_insert : ℕ → ℕ → Bool → HoleList → M → Option (HoleList × M)
  unfolding to_header
  raw_insert addr size skip_write list mem = do
    maybe_next ← root (get_log2_index size) list
    header ← to_header size maybe_next
    list ← link_hole addr size list
    mem ← if skip_write then some mem else memory.stable_write addr header mem
    some (list, mem)

  -- `HoleList::insert`
  unfoldable pub insert : ℕ → ℕ → HoleList → M → Option (HoleList × M)
  unfolding absorb raw_insert
  insert addr size list mem =
      let next_block = get_next_block addr size list in
      let previous_block = get_previous_block addr list in
      do
        (size, list) ← absorb next_block size list
        (size, list) ← absorb previous_block size list
        raw_insert (unwrap_or previous_block addr) size false list mem

  -- What `find` makes of the bytes of the hole beyond the size: the size of the block.
  unfoldable pub put_back : ℕ → ℕ → ℕ → HoleList → M → Option (ℕ × HoleList × M)
  unfolding raw_insert
  put_back addr size delta list mem =
      if leb min_allocation_size delta
      then (do
        (list, mem) ← raw_insert ((addr + size) % 2 ^ 64) delta false list mem
        some (size, list, mem))
      else some ((size + delta) % 2 ^ 64, list, mem)

  -- The block that `find` takes of the hole that it found.
  unfoldable pub take_block : ℕ → ℕ → ℕ → HoleList → M → Option ((ℕ × ℕ) × HoleList × M)
  unfolding put_back to_header
  take_block addr size delta list mem = do
    list ← remove_hole addr list
    (size, list, mem) ← put_back addr size delta list mem
    header ← to_header size none
    mem ← memory.stable_write addr header mem
    some ((addr, size), list, mem)

  -- `HoleList::find`
  unfoldable pub find : ℕ → HoleList → M → Option (Option (ℕ × ℕ) × HoleList × M)
  unfolding align take_block
  find size list mem =
      let size = align size in
      let index = get_log2_index size in
      let left = list.roots_left_boundary in
      let i = if ltb index left then left else index in
      do
        found ← find_from (list.roots_right_boundary - i) i size list
        elim found [
          | none ↦ some (none, list, mem)
          | some (addr, delta) ↦ do
            (block, list, mem) ← take_block addr size delta list mem
            some (some block, list, mem)
        ]
