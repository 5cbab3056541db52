-- ===== src/Stable/HoleList/Search.antt =====
-- ic-kit-stable/src/core/hole.rs: the neighbours of a block, and the search for a hole through the lists.
use ic_kit.Base.{
  ℕ, zero, suc, ◌+◌, ◌%◌, ◌^◌, Option, none, some, ◌>>=◌, List, [], ◌∷◌, length, ltb, ◌==◌,
  if◌then◌else◌,
}
use ic_kit.Dict.{Dict, find}
use ic_kit.Stable.Hole.{find_hole}
use ic_kit.Stable.HoleList.{Hole, HoleList, root}

-- `self.map.range(..addr).last()`, its key.
unfoldable pub last_before : ℕ → Dict Hole → Option ℕ
last_before addr [] = none
last_before addr ((a, hole) ∷ map) =
    let best = last_before addr map in
    if ltb a addr
    then elim best [ none ↦ some a | some b ↦ some (if ltb b a then a else b) ]
    else best

-- `self.map.range(addr..).next()`, its key.
unfoldable pub first_from : ℕ → Dict Hole → Option ℕ
first_from addr [] = none
first_from addr ((a, hole) ∷ map) =
    let best = first_from addr map in
    if ltb a addr
    then best
    else elim best [ none ↦ some a | some b ↦ some (if ltb a b then a else b) ]

-- `HoleList::get_previous_block`: the address, which is the pointer too.
unfoldable pub get_previous_block : ℕ → HoleList → Option ℕ
unfolding last_before
get_previous_block addr list = do
  b_addr ← last_before addr list.map
  hole ← find b_addr list.map
  if (b_addr + hole.size) % 2 ^ 64 == addr then some b_addr else none

-- `HoleList::get_next_block`
unfoldable pub get_next_block : ℕ → ℕ → HoleList → Option ℕ
unfolding first_from
get_next_block addr size list = do
  b_addr ← first_from addr list.map
  if b_addr == (addr + size) % 2 ^ 64 then some b_addr else none

-- What `HoleIterator` goes through, on fuel: the addresses and sizes of the boxes from `head` on.
unfoldable pub collect : ℕ → Option ℕ → Dict Hole → Option (List (ℕ × ℕ))
collect zero head map = none
collect (suc fuel) none map = some []
collect (suc fuel) (some addr) map = do
  hole ← find addr map
  rest ← collect fuel hole.next map
  some ((addr, hole.size) ∷ rest)

-- `self.iter(i).find(size)`
unfoldable pub find_at : ℕ → ℕ → HoleList → Option (Option (ℕ × ℕ))
unfolding root collect
find_at i size list = do
  head ← root i list
  holes ← collect (suc (length list.map)) head list.map
  find_hole size holes

-- The loop of `find`, with the number of rounds that are left to the right boundary.
unfoldable pub find_from : ℕ → ℕ → ℕ → HoleList → Option (Option (ℕ × ℕ))
unfolding find_at
find_from zero i size list = some none
find_from (suc rounds) i size list =
    let rest = find_from rounds (suc i) size list in
    do found ← find_at i size list; elim found [ none ↦ rest | some hole ↦ some (some hole) ]
