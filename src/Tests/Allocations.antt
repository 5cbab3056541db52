-- ===== src/Tests/Allocations.antt =====
-- The lists of holes and the allocator at concrete inputs.
use ic_kit.Base.{
  ℕ, suc, ◌+◌, ◌-◌, ◌*◌, ◌^◌, ◌≤◌, ◌<◌, ◌≡◌, ◌↔◌, refl, subst, none, some, [], ◌∷◌, ◌++◌, arith,
  Returns, ◌==◌, if◌then◌else◌, length, length-append,
}
use ic_kit.Dict.{find, put}
use ic_kit.Certified.HashTree.{Bytes}
use ic_kit.Runtime.StableMemory
use ic_kit.Runtime.StableMemory.{HeapStableMemory, default_memory, replicate, read_byte, at}
use ic_kit.Runtime.StableMemory.Laws.{length-replicate}
use ic_kit.Runtime.Canister.Guard.{to_le_bytes}
use ic_kit.Stable.Checksum.{verify}
use ic_kit.Stable.Memory.Heap.{mock_memory, mock_memory-IsMemory, IsWhole}
use ic_kit.Stable.HoleList.{HoleList, new_list, link_hole}
use ic_kit.Stable.HoleList.Index.{get_log2_index, get_log2_index-least}
use ic_kit.Stable.HoleList.Search.{collect}
use ic_kit.Stable.HoleList.Blocks.{align, insert, from_bytes}
use ic_kit.Stable.HoleList.Blocks
use ic_kit.Stable.HoleList.Invariant.{IsHoleList, new_list-IsHoleList, size_at}
use ic_kit.Stable.HoleList.Link.{Fresh, Added, link_hole-Added}
use ic_kit.Stable.HoleList.Merge.{IsTaken}
use ic_kit.Stable.HoleList.Insert.{Headed}
use ic_kit.Stable.HoleList.Release.{Released, insert-Released}
use ic_kit.Stable.HoleList.Take.{Finds, find-Finds}
use ic_kit.Stable.HoleList.Walk.{Level, collect-Level}
use ic_kit.Stable.Allocator.{allocate, free}
use ic_kit.Stable.Allocator.Allocate.{Allocates, allocate-Allocates, bytes_of}
use ic_kit.Stable.Allocator.Release.{free-Released}
use ic_kit.Stable.Allocator.Runs.{World, writes, IsSound, Run, here, next}
use ic_kit.Stable.Allocator.Runs.Sound.{Run-IsSound}

-- One hole, of 32 bytes at 32, in list 1.
abbrev one_list : HoleList
one_list = record {
  map = (32, record { size = 32; prev = none; next = none }) ∷ [];
  roots = λ i. if 1 == i then some 32 else none;
  roots_right_boundary = 2;
  roots_left_boundary = 1;
}

one_list_run : link_hole 32 32 new_list ≡ some one_list
unfolding link_hole new_list get_log2_index find put
one_list_run = refl

empty_Fresh : Fresh (2 ^ 16) 32 32 (size_at new_list)
unfolding new_list find
empty_Fresh = record {
  new = refl;
  sized = omega arith;
  before = λ a n e l. absurd (ground arith);
  behind = λ a n e l. absurd (ground arith);
}

one_list-IsHoleList : IsHoleList (2 ^ 16) one_list
one_list-IsHoleList =
    (subst (Returns (Added (2 ^ 16) 32 32 new_list)) one_list_run
      (link_hole-Added (new_list-IsHoleList (2 ^ 16) (omega arith)) 32 32 empty_Fresh)).0

-- One page, at whose start stands the header of a block of 32 bytes.
abbrev header : Bytes
header = to_le_bytes 8 (8224 * 2 ^ 40 + 32)

abbrev rest_of_page : Bytes
rest_of_page = replicate (2 ^ 16 - 8) 0

abbrev one_page : HeapStableMemory
one_page = record { pages = (header ++ rest_of_page) ∷ []; max_pages = 128 }

length-header : length header ≡ 8
unfolding to_le_bytes
length-header = refl

one_page-IsWhole : IsWhole one_page
one_page-IsWhole = record {
  whole = (
    omega (
      arith,
      length-append header rest_of_page,
      length-header,
      length-replicate {A = ℕ} (2 ^ 16 - 8) 0,
    ),
    tt,
  );
  within = omega arith;
  limit = omega arith;
}

one_page_room : 2 ^ 16 ≤ mock_memory.stable_size one_page * 2 ^ 16
unfolding mock_memory StableMemory.stable_size
one_page_room = omega arith

first_block-IsTaken : IsTaken (2 ^ 16) 0 32 (size_at one_list)
unfolding find
first_block-IsTaken = record { sized = omega arith; clear = λ a n e. ground arith }

first_block-Headed : Headed mock_memory-IsMemory 0 32 one_page
unfolding mock_memory StableMemory.stable_read to_le_bytes verify from_bytes
first_block-Headed = (header, refl, refl)

get_log2_index-least_example :
    (1000 ≤ 2 ^ (get_log2_index 1000 + 4))
    × ((i : ℕ) → 1000 ≤ 2 ^ (i + 4) → get_log2_index 1000 ≤ i)
    × ((get_log2_index 1000 < 36) ↔ (1000 ≤ 2 ^ 39))
get_log2_index-least_example = get_log2_index-least 1000 (omega arith) (omega arith)

collect-Level_example :
    Returns
      (Level one_list-IsHoleList 1)
      (collect (suc (length one_list.map)) (one_list.roots 1) one_list.map)
collect-Level_example = collect-Level one_list-IsHoleList 1

insert-Released_example :
    Returns
      (Released mock_memory-IsMemory (2 ^ 16) 0 32 one_list one_page)
      (insert mock_memory 0 32 one_list one_page)
insert-Released_example =
    insert-Released mock_memory-IsMemory one_list-IsHoleList one_page one_page-IsWhole one_page_room
      first_block-IsTaken

find-Finds_example :
    Returns
      (Finds mock_memory-IsMemory one_list-IsHoleList one_page one_page-IsWhole one_page_room
        (align 14))
      (Blocks.find mock_memory 14 one_list one_page)
find-Finds_example =
    find-Finds mock_memory-IsMemory one_list-IsHoleList one_page one_page-IsWhole one_page_room 14
      (omega arith)

free-Released_example :
    Returns
      (Released mock_memory-IsMemory (2 ^ 16) 0 32 one_list one_page)
      (free mock_memory (0 + 8) one_list one_page)
free-Released_example =
    free-Released mock_memory-IsMemory one_list-IsHoleList one_page one_page-IsWhole one_page_room
      first_block-IsTaken first_block-Headed

empty_memory-IsWhole : IsWhole default_memory
unfolding default_memory
empty_memory-IsWhole = record { whole = tt; within = omega arith; limit = omega arith }

empty_bytes : bytes_of mock_memory-IsMemory default_memory ≤ 2 ^ 39
unfolding default_memory mock_memory StableMemory.stable_size
empty_bytes = omega arith

allocate-Allocates_example :
    Returns
      (Allocates mock_memory-IsMemory 100 new_list default_memory)
      (allocate mock_memory 100 new_list default_memory)
allocate-Allocates_example =
    allocate-Allocates mock_memory-IsMemory default_memory
      (new_list-IsHoleList (bytes_of mock_memory-IsMemory default_memory) empty_bytes)
      empty_memory-IsWhole 100 (omega arith)

-- The block in use is written to behind its header.
abbrev zeros : Bytes
zeros = 0 ∷ 0 ∷ 0 ∷ 0 ∷ 0 ∷ 0 ∷ 0 ∷ 0 ∷ []

abbrev long_rest : Bytes
long_rest = replicate (2 ^ 16 - 16) 0

abbrev page_of : Bytes → HeapStableMemory
page_of bytes = record { pages = (header ++ (bytes ++ long_rest)) ∷ []; max_pages = 128 }

abbrev before_write : World HeapStableMemory
before_write = record {
  list = one_list;
  mem = page_of zeros;
  live = λ a. if 0 == a then some 32 else none;
}

abbrev after_write : World HeapStableMemory
after_write = record {
  list = one_list;
  mem = page_of (7 ∷ 9 ∷ 0 ∷ 0 ∷ 0 ∷ 0 ∷ 0 ∷ 0 ∷ []);
  live = λ a. if 0 == a then some 32 else none;
}

write_run : Run mock_memory-IsMemory before_write after_write
unfolding mock_memory StableMemory.stable_write to_le_bytes
write_run = next here (
    writes before_write 0 32 8 (7 ∷ 9 ∷ []) (page_of (7 ∷ 9 ∷ 0 ∷ 0 ∷ 0 ∷ 0 ∷ 0 ∷ 0 ∷ [])) refl
      (omega arith) (omega arith) refl)

before_write-IsSound : IsSound mock_memory-IsMemory before_write
unfolding mock_memory StableMemory.stable_size StableMemory.stable_read to_le_bytes verify
    from_bytes
before_write-IsSound = record {
  valid = one_list-IsHoleList;
  good = record {
    whole = (omega (arith, length-replicate {A = ℕ} (2 ^ 16 - 16) 0), tt);
    within = omega arith;
    limit = omega arith;
  };
  taken = λ a n e.
      let at : 0 ≡ a = ground arith in
      let size : 32 ≡ n = ground arith in
      subst
        (λ c.
          IsTaken (2 ^ 16) c n (size_at one_list) × Headed mock_memory-IsMemory c n (page_of zeros))
        at
        (subst
          (λ k.
            IsTaken (2 ^ 16) 0 k (size_at one_list)
            × Headed mock_memory-IsMemory 0 k (page_of zeros))
          size (first_block-IsTaken, (header, refl, refl)));
  disjoint = λ a b n k e f l. absurd (ground arith);
}

Run-IsSound_example : IsSound mock_memory-IsMemory after_write
Run-IsSound_example = Run-IsSound mock_memory-IsMemory before_write-IsSound write_run
