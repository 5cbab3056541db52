-- ===== src/Stable/HoleList/Neighbours.antt =====
-- The neighbours that hole.rs finds for a block are those that touch it.
use ic_kit.Base.{
  ℕ, ◌+◌, ◌%◌, ◌^◌, ◌≤◌, ◌<◌, ◌≡◌, ◌≢◌, refl, Option, none, some, [], ◌∷◌, ltb, ◌==◌, arith,
  Option-cases, Bool-cases, ◌⊎◌, inl, inr, if◌then◌else◌, ◌>>=◌,
}
use ic_kit.Dict.{Dict, find}
use ic_kit.Stable.HoleList.{Hole, HoleList}
use ic_kit.Stable.HoleList.Search.{last_before, first_from, get_previous_block, get_next_block}
use ic_kit.Stable.HoleList.Invariant.{IsHoleList, size_at}

abbrev Greatest : ℕ → Dict Hole → Option ℕ → Type 0
Greatest addr map none = (a : ℕ) → a < addr → find a map ≡ none
Greatest addr map (some b) =
    (b < addr) × (find b map ≢ none) × ((a : ℕ) → a < addr → find a map ≢ none → a ≤ b)

abbrev Least : ℕ → Dict Hole → Option ℕ → Type 0
Least addr map none = (a : ℕ) → addr ≤ a → find a map ≡ none
Least addr map (some b) =
    (addr ≤ b) × (find b map ≢ none) × ((a : ℕ) → addr ≤ a → find a map ≢ none → b ≤ a)

find_cons :
    (a b : ℕ) (hole : Hole) (map : Dict Hole)
    → find a ((b, hole) ∷ map) ≡ (if b == a then some hole else find a map)
unfolding find
find_cons a b hole map = refl

Greatest-cons :
    (addr b : ℕ) (hole : Hole) (map : Dict Hole) (best : Option ℕ)
    → Greatest addr map best
    → Greatest addr ((b, hole) ∷ map) (
        if ltb b addr
        then elim best [ none ↦ some b | some c ↦ some (if ltb c b then b else c) ]
        else best)
Greatest-cons addr b hole map none g = elim (Bool-cases (ltb b addr)) [
  | inl e ↦ rw e (
    ground arith,
    ground (arith, find_cons b b hole map),
    λ a h f. ground (arith, find_cons a b hole map, g a),
  )
  | inr e ↦ rw e λ a h. ground (arith, find_cons a b hole map, g a)
]
Greatest-cons addr b hole map (some c) (l, f, g) = elim (Bool-cases (ltb b addr)) [
  | inl e ↦ elim (Bool-cases (ltb c b)) [
    | inl d ↦
        rw (e, d)
          (
            ground arith,
            ground (arith, find_cons b b hole map),
            λ a h k. ground (arith, find_cons a b hole map, g a),
          )
    | inr d ↦
        rw (e, d)
          (
            l,
            ground (arith, find_cons c b hole map),
            λ a h k. ground (arith, find_cons a b hole map, g a),
          )
  ]
  | inr e ↦ rw e (
    l,
    ground (arith, find_cons c b hole map),
    λ a h k. ground (arith, find_cons a b hole map, g a),
  )
]

last_before-Greatest : (addr : ℕ) (map : Dict Hole) → Greatest addr map (last_before addr map)
unfolding last_before
last_before-Greatest addr [] = λ a h. unfold find in ground arith
last_before-Greatest addr ((b, hole) ∷ map) =
    Greatest-cons addr b hole map (last_before addr map) (last_before-Greatest addr map)

Least-cons :
    (addr b : ℕ) (hole : Hole) (map : Dict Hole) (best : Option ℕ)
    → Least addr map best
    → Least addr ((b, hole) ∷ map) (
        if ltb b addr
        then best
        else elim best [ none ↦ some b | some c ↦ some (if ltb b c then b else c) ])
Least-cons addr b hole map none g = elim (Bool-cases (ltb b addr)) [
  | inl e ↦ rw e λ a h. ground (arith, find_cons a b hole map, g a)
  | inr e ↦ rw e (
    ground arith,
    ground (arith, find_cons b b hole map),
    λ a h f. ground (arith, find_cons a b hole map, g a),
  )
]
Least-cons addr b hole map (some c) (l, f, g) = elim (Bool-cases (ltb b addr)) [
  | inl e ↦ rw e (
    l,
    ground (arith, find_cons c b hole map),
    λ a h k. ground (arith, find_cons a b hole map, g a),
  )
  | inr e ↦ elim (Bool-cases (ltb b c)) [
    | inl d ↦
        rw (e, d)
          (
            ground arith,
            ground (arith, find_cons b b hole map),
            λ a h k. ground (arith, find_cons a b hole map, g a),
          )
    | inr d ↦
        rw (e, d)
          (
            l,
            ground (arith, find_cons c b hole map),
            λ a h k. ground (arith, find_cons a b hole map, g a),
          )
  ]
]

first_from-Least : (addr : ℕ) (map : Dict Hole) → Least addr map (first_from addr map)
unfolding first_from
first_from-Least addr [] = λ a h. unfold find in ground arith
first_from-Least addr ((b, hole) ∷ map) =
    Least-cons addr b hole map (first_from addr map) (first_from-Least addr map)

-- The hole that ends at `addr`, and the one that starts there.
abbrev pub Before : (ℕ → Option ℕ) → ℕ → Option ℕ → Type 0
Before sizes addr none = (a n : ℕ) → sizes a ≡ some n → a + n ≢ addr
Before sizes addr (some p) = (n : ℕ) × (sizes p ≡ some n) × (p + n ≡ addr)

abbrev pub Behind : (ℕ → Option ℕ) → ℕ → Option ℕ → Type 0
Behind sizes end none = sizes end ≡ none
Behind sizes end (some b) = (b ≡ end) × ((n : ℕ) × (sizes b ≡ some n))

module _ {limit : ℕ} {list : HoleList} (valid : IsHoleList limit list) where
  open valid use {apart}

  previous_of :
      (addr : ℕ) (best : Option ℕ)
      → addr ≤ limit
      → Greatest addr list.map best
      → Before (size_at list) addr (do
        b_addr ← best
        hole ← find b_addr list.map
        if (b_addr + hole.size) % 2 ^ 64 == addr then some b_addr else none)
  previous_of addr none h g = λ a n e l. ground (arith, g a, apart.sized a n)
  previous_of addr (some b) h (l, f, g) = elim (Option-cases (find b list.map)) [
    | inl e ↦ absurd (f e)
    | inr (hole, e) ↦
        let here : size_at list b ≡ some hole.size = ground arith in
        let s = apart.sized b hole.size here in
        let k = valid.limit_le in
        elim (Bool-cases ((b + hole.size) % 2 ^ 64 == addr)) [
          | inl d ↦ rw (e, d) (hole.size, ground arith, ground arith)
          | inr d ↦
              rw (e, d)
                λ a n i j.
                  let sa = apart.sized a n i in
                  let ga = g a (omega arith) (λ w. ground arith) in
                  ground (arith, apart.gap a b n hole.size)
        ]
  ]

  pub get_previous_block-Before :
      (addr : ℕ) → addr ≤ limit → Before (size_at list) addr (get_previous_block addr list)
  unfolding get_previous_block
  get_previous_block-Before addr h =
      previous_of addr (last_before addr list.map) h (last_before-Greatest addr list.map)

  next_of :
      (addr size : ℕ) (best : Option ℕ)
      → addr + size ≤ limit
      → ((a n : ℕ) → size_at list a ≡ some n → (a + n ≤ addr) ⊎ (addr + size ≤ a))
      → Least addr list.map best
      → Behind
          (size_at list)
          (addr + size)
          (do b_addr ← best; if b_addr == (addr + size) % 2 ^ 64 then some b_addr else none)
  next_of addr size none h clear g = ground (arith, g (addr + size))
  next_of addr size (some b) h clear (l, f, g) = elim (Option-cases (find b list.map)) [
    | inl e ↦ absurd (f e)
    | inr (hole, e) ↦
        let here : size_at list b ≡ some hole.size = ground arith in
        let s = apart.sized b hole.size here in
        let c = clear b hole.size here in
        let k = valid.limit_le in
        elim (Bool-cases (b == (addr + size) % 2 ^ 64)) [
          | inl d ↦ rw d (ground arith, (hole.size, here))
          | inr d ↦ rw d (ground (arith, g (addr + size)))
        ]
  ]

  pub get_next_block-Behind :
      (addr size : ℕ)
      → addr + size ≤ limit
      → ((a n : ℕ) → size_at list a ≡ some n → (a + n ≤ addr) ⊎ (addr + size ≤ a))
      → Behind (size_at list) (addr + size) (get_next_block addr size list)
  unfolding get_next_block
  get_next_block-Behind addr size h clear =
      next_of addr size (first_from addr list.map) h clear (first_from-Least addr list.map)
