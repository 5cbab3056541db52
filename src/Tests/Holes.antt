-- ===== src/Tests/Holes.antt =====
-- The search for a hole, at a list of two.
use ic_kit.Base.{ℕ, ◌≡◌, refl, [], ◌∷◌, List, some, Returns}
use ic_kit.Stable.Hole.{find_hole, scan, note_worst, note_best, nothing_found, choose}
use ic_kit.Stable.Hole.Laws.{Fits, find_hole-Fits}

abbrev holes : List (ℕ × ℕ)
holes = (100, 24) ∷ (200, 64) ∷ []

find_hole-Fits_example : Returns (Fits 20 holes) (find_hole 20 holes)
find_hole-Fits_example = find_hole-Fits 20 holes

-- The hole that leaves most is taken, and one that fits exactly before it.
worst_fit : find_hole 20 holes ≡ some (some (200, 44))
unfolding find_hole scan note_worst note_best nothing_found choose
worst_fit = refl

exact_fit : find_hole 24 holes ≡ some (some (100, 0))
unfolding find_hole scan note_worst note_best nothing_found choose
exact_fit = refl
