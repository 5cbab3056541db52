-- ===== src/Stable/HoleList.antt =====
-- ic-kit-stable/src/core/hole.rs: the free blocks of the stable memory, in doubly linked lists by powers of
-- two. A hole is a box of its own, and the pointer to it is the address of its block, by which `map` finds
-- the box: to put a second box at an address whose box is still linked is a fault here, and so is the use
-- of a pointer to a box that is gone. `none` is a fault or a panic. The numbers have 64 bits.
pub mod Index
pub mod Search
pub mod Blocks
pub mod Links
pub mod Take
pub mod Level
pub mod Carve
pub mod Collect
pub mod Walk
pub mod Release
pub mod Free
pub mod Insert
pub mod Merge
pub mod Neighbours
pub mod Link
pub mod Invariant
pub mod Remove
pub mod Pointers
pub mod Boundaries
use ic_kit.Base.{
  ℕ, zero, suc, ◌+◌, ◌-◌, ◌%◌, ◌^◌, Bool, true, false, Option, none, some, ◌>>=◌, List, [], ◌∷◌,
  ◌++◌, length, ltb, leb, ◌==◌, if◌then◌else◌,
}
use ic_kit.Dict.{Dict, find, put, erase}
use ic_kit.Certified.HashTree.{Bytes}
use ic_kit.Stable.Memory.{Memory}
use ic_kit.Stable.Checksum.{seal}
use ic_kit.Stable.HoleList.Index.{get_log2_index}

-- A box without its address.
pub record Hole : Type 0 where
  pub size : ℕ
  pub prev : Option ℕ
  pub next : Option ℕ

-- The places of the array `roots` are the numbers below 36.
pub record HoleList : Type 0 where
  pub map : Dict Hole
  pub roots : ℕ → Option ℕ
  pub roots_right_boundary : ℕ
  pub roots_left_boundary : ℕ

-- `HoleList::default`
unfoldable pub new_list : HoleList
new_list = record {
  map = [];
  roots = λ _. none;
  roots_right_boundary = 0;
  roots_left_boundary = 36;
}

-- `self.roots[i]`
unfoldable pub root : ℕ → HoleList → Option (Option ℕ)
root i list = if ltb i 36 then some (list.roots i) else none

unfoldable pub set_root : ℕ → Option ℕ → HoleList → HoleList
set_root i r list = record list { roots = λ j. if i == j then r else list.roots j }

-- `Hole::new`
unfoldable pub new_hole : ℕ → Option ℕ → Hole
new_hole size next = record { size = size; prev = none; next = next }

-- `if let Some(mut prev) = self.prev { prev.as_mut().next = next }`
unfoldable pub set_next : Option ℕ → Option ℕ → Dict Hole → Option (Dict Hole)
set_next none next map = some map
set_next (some p) next map = do hole ← find p map; some (put p (record hole { next = next }) map)

unfoldable pub set_prev : Option ℕ → Option ℕ → Dict Hole → Option (Dict Hole)
set_prev none prev map = some map
set_prev (some n) prev map = do hole ← find n map; some (put n (record hole { prev = prev }) map)

unfoldable pub is_root : Hole → Bool
is_root hole = elim hole.prev [ none ↦ true | some _ ↦ false ]

-- `Hole::remove_from_linked_list`, of a box that is dropped next.
unfoldable pub remove_from_linked_list : Hole → Dict Hole → Option (Dict Hole)
unfolding set_next set_prev
remove_from_linked_list hole map = do
  map ← set_next hole.prev hole.next map
  set_prev hole.next hole.prev map

-- The first loop of `remove_hole`, on the right boundary.
unfoldable pub shrink_right : ℕ → HoleList → Option ℕ
unfolding root
shrink_right zero list = some zero
shrink_right (suc right) list =
    let rest = shrink_right right list in
    do r ← root right list; elim r [ none ↦ rest | some _ ↦ some (suc right) ]

-- The second, on the left boundary, with the number of rounds that are left to 36.
unfoldable pub advance_left : ℕ → ℕ → HoleList → Option ℕ
unfolding root
advance_left zero left list = some left
advance_left (suc rounds) left list =
    let rest = advance_left rounds (suc left) list in
    do r ← root left list; elim r [ none ↦ rest | some _ ↦ some left ]

-- What `remove_hole` does of a root: the next hole takes its place, and the boundaries follow.
unfoldable pub remove_root : Hole → HoleList → Option HoleList
unfolding root set_root shrink_right advance_left
remove_root hole list =
    let index = get_log2_index hole.size in
    do
      _ ← root index list
      let list = set_root index hole.next list
      right ←
          if list.roots_right_boundary == index + 1
          then shrink_right list.roots_right_boundary list
          else some list.roots_right_boundary
      let list = record list { roots_right_boundary = right }
      left ←
          if list.roots_left_boundary == index
          then advance_left (36 - list.roots_left_boundary) list.roots_left_boundary list
          else some list.roots_left_boundary
      some (record list { roots_left_boundary = left })

-- `HoleList::remove_hole`
unfoldable pub remove_hole : ℕ → HoleList → Option HoleList
unfolding is_root remove_root remove_from_linked_list
remove_hole addr list = do
  hole ← find addr list.map
  let list = record list { map = erase addr list.map }
  list ← if is_root hole then remove_root hole list else some list
  map ← remove_from_linked_list hole list.map
  some (record list { map = map })

-- Inserting a new box into `map`.
unfoldable pub insert_box : ℕ → Hole → Dict Hole → Option (Dict Hole)
insert_box addr hole map = elim (find addr map) [ none ↦ some (put addr hole map) | some _ ↦ none ]

-- The insertion of `raw_insert`, without the header.
unfoldable pub link_hole : ℕ → ℕ → HoleList → Option HoleList
unfolding root set_root set_prev new_hole insert_box
link_hole addr size list =
    let index = get_log2_index size in
    do
      maybe_next ← root index list
      map ← set_prev maybe_next (some addr) list.map
      map ← insert_box addr (new_hole size maybe_next) map
      let list = set_root index (some addr) (record list { map = map })
      let right = list.roots_right_boundary
      let left = list.roots_left_boundary
      some (record list {
        roots_right_boundary = if leb right index then index + 1 else right;
        roots_left_boundary = if ltb index left then index else left;
      })
