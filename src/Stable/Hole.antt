-- ===== src/Stable/Hole.antt =====
-- ic-kit-stable/src/core/hole.rs: the search for a hole in one of the linked lists, which `HoleIterator` goes
-- through. A list is its holes, addresses and sizes, in order.
pub mod Laws
use ic_kit.Base.{
  ℕ, ◌+◌, ◌-◌, ◌^◌, Option, none, some, ◌>>=◌, List, [], ◌∷◌, ltb, ◌==◌, if◌then◌else◌,
}

-- `MIN_ALLOCATION_SIZE` of allocator.rs.
abbrev pub min_allocation_size : ℕ
min_allocation_size = 16

-- What the search has found so far.
pub record Found : Type 0 where
  pub worst_fit_delta : ℕ
  pub worst_fit_addr : Option ℕ
  pub best_fit_delta : ℕ
  pub best_fit_addr : Option ℕ

unfoldable pub nothing_found : Found
nothing_found = record {
  worst_fit_delta = 0;
  worst_fit_addr = none;
  best_fit_delta = 2 ^ 64 - 1;
  best_fit_addr = none;
}

unfoldable pub note_worst : ℕ → ℕ → Found → Found
note_worst addr delta f =
    if ltb f.worst_fit_delta delta
    then record f { worst_fit_delta = delta; worst_fit_addr = some addr }
    else f

unfoldable pub note_best : ℕ → ℕ → Found → Found
note_best addr delta f =
    if ltb delta f.best_fit_delta
    then record f { best_fit_delta = delta; best_fit_addr = some addr }
    else f

-- The loop.
unfoldable pub scan : ℕ → List (ℕ × ℕ) → Found → Found
unfolding note_worst note_best
scan size [] f = f
scan size ((addr, b_size) ∷ holes) f = scan size holes (
    if ltb b_size size
    then f
    else note_best addr (b_size - size) (note_worst addr (b_size - size) f))

-- What the search returns in the end; `none` is the panic of `unwrap`.
unfoldable pub choose : Found → Option (Option (ℕ × ℕ))
choose f =
    if f.best_fit_delta == 0
    then elim f.best_fit_addr [ none ↦ none | some addr ↦ some (some (addr, 0)) ]
    else if ltb f.worst_fit_delta min_allocation_size
    then some (do addr ← f.best_fit_addr; some (addr, f.best_fit_delta))
    else some (do addr ← f.worst_fit_addr; some (addr, f.worst_fit_delta))

-- `HoleIterator::find`
unfoldable pub find_hole : ℕ → List (ℕ × ℕ) → Option (Option (ℕ × ℕ))
unfolding nothing_found scan choose
find_hole size [] = some none
find_hole size (hole ∷ holes) = choose (scan size (hole ∷ holes) nothing_found)
