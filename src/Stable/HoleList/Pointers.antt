-- ===== src/Stable/HoleList/Pointers.antt =====
-- What writing through the pointers of hole.rs does to the boxes.
use ic_kit.Base.{
  ℕ, ◌≡◌, ◌≢◌, refl, Option, none, some, if◌then◌else◌, arith, Option-cases, inl, inr, Returns,
  Returns-bind, Returns-imp,
}
use ic_kit.Dict.{Dict, find, put, find-put}
use ic_kit.Stable.HoleList.{Hole, set_next, set_prev, remove_from_linked_list, insert_box}
use ic_kit.Stable.HoleList.Links.{points, alter, bypass}

-- A pointer to a box that is there.
abbrev pub Valid : Option ℕ → Dict Hole → Type 0
Valid p map = (a : ℕ) → p ≡ some a → find a map ≢ none

pub set_next-alter :
    (p next : Option ℕ) (map : Dict Hole)
    → Valid p map
    → Returns
        (λ after.
          (x : ℕ)
          → find x after
            ≡ alter
                (λ hole. record hole { next = if points p x then next else hole.next })
                (find x map))
        (set_next p next map)
unfolding set_next
set_next-alter none next map valid =
    λ x. elim (Option-cases (find x map)) [ inl e ↦ ground arith | inr (hole, e) ↦ ground arith ]
set_next-alter (some a) next map valid = elim (Option-cases (find a map)) [
  | inl e ↦ absurd (valid a refl e)
  | inr (hole, e) ↦ rw e λ x. elim (Option-cases (find x map)) [
    | inl f ↦ ground (arith, find-put x a (record hole { next = next }) map)
    | inr (other, f) ↦ ground (arith, find-put x a (record hole { next = next }) map)
  ]
]

pub set_prev-alter :
    (p prev : Option ℕ) (map : Dict Hole)
    → Valid p map
    → Returns
        (λ after.
          (x : ℕ)
          → find x after
            ≡ alter
                (λ hole. record hole { prev = if points p x then prev else hole.prev })
                (find x map))
        (set_prev p prev map)
unfolding set_prev
set_prev-alter none prev map valid =
    λ x. elim (Option-cases (find x map)) [ inl e ↦ ground arith | inr (hole, e) ↦ ground arith ]
set_prev-alter (some a) prev map valid = elim (Option-cases (find a map)) [
  | inl e ↦ absurd (valid a refl e)
  | inr (hole, e) ↦ rw e λ x. elim (Option-cases (find x map)) [
    | inl f ↦ ground (arith, find-put x a (record hole { prev = prev }) map)
    | inr (other, f) ↦ ground (arith, find-put x a (record hole { prev = prev }) map)
  ]
]

pub remove_from_linked_list-bypass :
    (hole : Hole) (map : Dict Hole)
    → Valid hole.prev map
    → Valid hole.next map
    → Returns
        (λ after. (x : ℕ) → find x after ≡ alter (bypass hole x) (find x map))
        (remove_from_linked_list hole map)
unfolding remove_from_linked_list
remove_from_linked_list-bypass hole map before behind =
    Returns-bind _ _ (set_next hole.prev hole.next map) _
      (set_next-alter hole.prev hole.next map before)
      λ mid e.
        Returns-imp _ _ (set_prev hole.next hole.prev mid)
          (set_prev-alter hole.next hole.prev mid λ a p. elim (Option-cases (find a map)) [
            | inl f ↦ absurd (behind a p f)
            | inr (other, f) ↦ ground (arith, e a)
          ])
          λ after f x. elim (Option-cases (find x map)) [
            | inl g ↦ ground (arith, e x, f x)
            | inr (other, g) ↦ ground (arith, e x, f x)
          ]

pub insert_box_lem :
    (addr : ℕ) (hole : Hole) (map : Dict Hole)
    → find addr map ≡ none
    → insert_box addr hole map ≡ some (put addr hole map)
unfolding insert_box
insert_box_lem addr hole map e = ground arith
