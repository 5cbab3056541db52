-- ===== src/Stable/HoleList/Boundaries.antt =====
-- The boundaries of hole.rs: which of the linked lists are not empty.
use ic_kit.Base.{
  ℕ, zero, suc, ◌+◌, ◌-◌, ◌≤◌, ◌<◌, ◌≡◌, ◌≢◌, refl, Option, none, some, ltb, leb, ◌==◌,
  if◌then◌else◌, arith, Option-cases, Bool-cases, inl, inr, Returns, Returns-bind, true,
}
use ic_kit.Stable.HoleList.{Hole, HoleList, root, set_root, shrink_right, advance_left, remove_root}
use ic_kit.Stable.HoleList.Index.{get_log2_index}
use ic_kit.Stable.HoleList.Links.{put_root}

abbrev pub Roots : Type 0
Roots = ℕ → Option ℕ

-- `right` is the least number from which on all lists are empty.
abbrev pub RightBound : Roots → ℕ → Type 0
RightBound roots right =
    (right ≤ 36)
    × ((i : ℕ) → right ≤ i → roots i ≡ none)
    × ((r : ℕ) → right ≡ suc r → roots r ≢ none)

-- `left` is the greatest number, to 36, below which all lists are empty.
abbrev pub LeftBound : Roots → ℕ → Type 0
LeftBound roots left =
    (left ≤ 36) × ((i : ℕ) → i < left → roots i ≡ none) × (left < 36 → roots left ≢ none)

shrink_right-RightBound :
    (right : ℕ) (list : HoleList)
    → right ≤ 36
    → ((i : ℕ) → right ≤ i → list.roots i ≡ none)
    → Returns (RightBound list.roots) (shrink_right right list)
unfolding shrink_right root
shrink_right-RightBound zero list h above = (h, above, λ r e. absurd (omega arith))
shrink_right-RightBound (suc right) list h above =
    let inside : ltb right 36 ≡ true = ground arith in
    elim (Option-cases (list.roots right)) [
      | inl e ↦
          rw (inside, e)
            (shrink_right-RightBound right list (omega arith) λ i k.
              elim (Bool-cases (i == right)) [
                | inl f ↦ let same : i ≡ right = ground arith in rw same e
                | inr f ↦ above i (ground arith)
              ])
      | inr (a, e) ↦
          rw (inside, e)
            (h, above, λ r f. let same : right ≡ r = omega arith in rw (← same) (ground (arith, e)))
    ]

advance_left-LeftBound :
    (rounds left : ℕ) (list : HoleList)
    → left + rounds ≡ 36
    → ((i : ℕ) → i < left → list.roots i ≡ none)
    → Returns (LeftBound list.roots) (advance_left rounds left list)
unfolding advance_left root
advance_left-LeftBound zero left list h below = (omega arith, below, λ l. absurd (omega arith))
advance_left-LeftBound (suc rounds) left list h below =
    let inside : ltb left 36 ≡ true = ground arith in
    elim (Option-cases (list.roots left)) [
      | inl e ↦
          rw (inside, e)
            (advance_left-LeftBound rounds (suc left) list (omega arith) λ i k.
              elim (Bool-cases (i == left)) [
                | inl f ↦ let same : i ≡ left = ground arith in rw same e
                | inr f ↦ below i (ground arith)
              ])
      | inr (a, e) ↦ rw (inside, e) (omega arith, below, λ f. ground (arith, e))
    ]

-- A list that was not empty has another root.
module _ (index : ℕ) (next : Option ℕ) (list : HoleList) (inside : index < 36)
    (some_root : list.roots index ≢ none) where
  right_step :
      (right : ℕ)
      → RightBound list.roots right
      → Returns
          (RightBound (put_root index next list.roots))
          (if right == index + 1 then shrink_right right (set_root index next list) else some right)
  unfolding set_root
  right_step right bound = elim (Bool-cases (right == index + 1)) [
    | inl e ↦ rw e (
        shrink_right-RightBound right (set_root index next list) bound.0
          λ i k. ground (arith, bound.1 i))
    | inr e ↦ rw e (
      bound.0,
      λ i k. elim (Bool-cases (index == i)) [
        | inl f ↦ let same : index ≡ i = ground arith in absurd (some_root (rw same (bound.1 i k)))
        | inr f ↦ ground (arith, bound.1 i)
      ],
      λ r k. ground (arith, bound.2 r k),
    )
  ]

  left_step :
      (left right : ℕ)
      → LeftBound list.roots left
      → Returns (LeftBound (put_root index next list.roots)) (
          if left == index
          then advance_left
              (36 - left)
              left
              (record (set_root index next list) { roots_right_boundary = right })
          else some left)
  unfolding set_root
  left_step left right bound = elim (Bool-cases (left == index)) [
    | inl e ↦ rw e (
        advance_left-LeftBound (36 - left) left _ (let l = bound.0 in omega arith)
          λ i k. ground (arith, bound.1 i))
    | inr e ↦ rw e (
      bound.0,
      λ i k. elim (Bool-cases (index == i)) [
        | inl f ↦ let same : index ≡ i = ground arith in absurd (some_root (rw same (bound.1 i k)))
        | inr f ↦ ground (arith, bound.1 i)
      ],
      λ k. ground (arith, bound.2 k),
    )
  ]

abbrev pub Bounded : HoleList → Type 0
Bounded list =
    RightBound list.roots list.roots_right_boundary × LeftBound list.roots list.roots_left_boundary

-- The root leaves, and the boundaries are again as tight as they can be.
pub remove_root-Bounded :
    (hole : Hole) (list : HoleList)
    → get_log2_index hole.size < 36
    → list.roots (get_log2_index hole.size) ≢ none
    → Bounded list
    → Returns
        (λ after.
          Bounded after
          × (after.map ≡ list.map)
          × (after.roots ≡ put_root (get_log2_index hole.size) hole.next list.roots))
        (remove_root hole list)
unfolding remove_root root set_root
remove_root-Bounded hole list inside some_root (right, left) =
    let index = get_log2_index hole.size in
    let checked : ltb index 36 ≡ true = ground arith in
    rw checked (
      Returns-bind (RightBound (put_root index hole.next list.roots)) _ _ _
        (right_step index hole.next list inside some_root list.roots_right_boundary right)
        λ r right'.
          Returns-bind (LeftBound (put_root index hole.next list.roots)) _ _ _
            (left_step index hole.next list inside some_root list.roots_left_boundary r left)
            λ l left'. ((right', left'), refl, refl))

-- A root comes.
pub link-Bounded :
    (index addr right left : ℕ) (roots : Roots)
    → index < 36
    → RightBound roots right
    → LeftBound roots left
    → RightBound (put_root index (some addr) roots) (if leb right index then index + 1 else right)
      × LeftBound (put_root index (some addr) roots) (if ltb index left then index else left)
link-Bounded index addr right left roots inside r l = (
  (ground (arith, r.0), λ i h. ground (arith, r.1 i), λ i e. ground (arith, r.2 i)),
  (ground (arith, l.0), λ i h. ground (arith, l.1 i), λ h. ground (arith, l.2, l.0)),
)
