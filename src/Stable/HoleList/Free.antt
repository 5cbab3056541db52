-- ===== src/Stable/HoleList/Free.antt =====
-- `insert` of hole.rs: the bytes of the block become free, and no others.
use ic_kit.Base.{
  ℕ, ◌+◌, ◌^◌, ◌≤◌, ◌<◌, ◌≡◌, ◌≢◌, refl, sym, ap, ◌∙◌, true, false, Option, none, some, ltb, ◌==◌,
  arith, if◌then◌else◌, ◌↔◌, Option-cases, Bool-cases, ◌⊎◌, inl, inr, Returns, Returns-bind,
}
use ic_kit.Dict.{find}
use ic_kit.Stable.HoleList.{HoleList}
use ic_kit.Stable.HoleList.Blocks.{absorb}
use ic_kit.Stable.HoleList.Links.{points}
use ic_kit.Stable.HoleList.Invariant.{Apart, IsHoleList, size_at, size_of}
use ic_kit.Stable.HoleList.Link.{Fresh}
use ic_kit.Stable.HoleList.Remove.{Removed, remove_hole-Removed}
use ic_kit.Stable.HoleList.Merge.{Sizes, Free, IsTaken, without, extra, start}
use ic_kit.Stable.HoleList.Neighbours.{Before, Behind}

pub Fresh-ext :
    {limit addr size : ℕ} (s t : Sizes)
    → ((x : ℕ) → t x ≡ s x)
    → Fresh limit addr size s
    → Fresh limit addr size t
Fresh-ext s t e f = record {
  new = e _ ∙ f.new;
  sized = f.sized;
  before = λ a n h. f.before a n (sym (e a) ∙ h);
  behind = λ a n h. f.behind a n (sym (e a) ∙ h);
}

-- A neighbour that is merged.
abbrev pub Absorbed : ℕ → Option ℕ → ℕ → HoleList → ℕ × HoleList → Type 0
Absorbed limit p size list (n, after) =
    IsHoleList limit after
    × (n ≡ size + extra p (size_at list))
    × ((x : ℕ) → size_at after x ≡ without p (size_at list) x)

pub absorb-Absorbed :
    {limit : ℕ} {list : HoleList} (p : Option ℕ) (size : ℕ)
    → IsHoleList limit list
    → ((a : ℕ) → p ≡ some a → size_at list a ≢ none)
    → size + extra p (size_at list) < 2 ^ 64
    → Returns (Absorbed limit p size list) (absorb p size list)
unfolding absorb
absorb-Absorbed none size valid there bound = (valid, omega arith, λ x. refl)
absorb-Absorbed {limit} {list} (some a) size valid there bound =
    elim (Option-cases (find a list.map)) [
      | inl e ↦ absurd (there a refl (ap size_of e))
      | inr (hole, e) ↦
          let small : size + hole.size < 2 ^ 64 = ground arith in
          rw e (
            Returns-bind (Removed limit a list) _ _ _ (remove_hole-Removed valid a hole e)
              λ after (ok, change). (ok, ground arith, change))
    ]

-- Which bytes are free after a merge.
-- The byte at `x` belongs to a hole or to the block.
abbrev pub FreeOrIn : ℕ → ℕ → Sizes → ℕ → Type 0
FreeOrIn addr size sizes x = Free sizes x ⊎ ((addr ≤ x) × (x < addr + size))

module _ {limit addr size : ℕ} {sizes : Sizes} (apart : Apart limit sizes)
    (taken : IsTaken limit addr size sizes) where
  -- A byte of the merged hole.
  merged-FreeOrIn :
      (p b : Option ℕ)
      → Before sizes addr p
      → Behind sizes (addr + size) b
      → (x : ℕ) → start p addr ≤ x
      → x < start p addr + (size + extra b sizes + extra p (without b sizes))
      → FreeOrIn addr size sizes x
  merged-FreeOrIn none none h k x l u = inr (l, omega arith)
  merged-FreeOrIn none (some b) h (at, (m, k)) x l u = elim (Bool-cases (ltb x (addr + size))) [
    | inl e ↦ inr (l, ground arith)
    | inr e ↦ inl (b, m, k, ground arith, ground arith)
  ]
  merged-FreeOrIn (some p) none (n, h, at) k x l u = elim (Bool-cases (ltb x addr)) [
    | inl e ↦ inl (p, n, h, l, ground arith)
    | inr e ↦ inr (ground arith, ground arith)
  ]
  merged-FreeOrIn (some p) (some b) (n, h, at) (at', (m, k)) x l u =
      elim (Bool-cases (ltb x addr)) [
        | inl e ↦ inl (p, n, h, l, ground arith)
        | inr e ↦ elim (Bool-cases (ltb x (addr + size))) [
          | inl f ↦ inr (ground arith, ground arith)
          | inr f ↦ inl (b, m, k, ground arith, ground (arith, taken.sized))
        ]
      ]

  -- A byte of the block, or of a neighbour.
  FreeOrIn-merged :
      (p b : Option ℕ)
      → Before sizes addr p
      → Behind sizes (addr + size) b
      → (x : ℕ)
      → ((addr ≤ x) × (x < addr + size))
        ⊎ ((a : ℕ) × (n : ℕ) × (sizes a ≡ some n)
            × (a ≤ x)
            × (x < a + n)
            × (((points p a) ≡ true) ⊎ ((points b a) ≡ true)))
      → (start p addr ≤ x) × (x < start p addr + (size + extra b sizes + extra p (without b sizes)))
  FreeOrIn-merged none none h k x w = ground arith
  FreeOrIn-merged none (some b) h (at, (m, k)) x w = ground arith
  FreeOrIn-merged (some p) none (n, h, at) k x w = ground arith
  FreeOrIn-merged (some p) (some b) (n, h, at) (at', (m, k)) x w = ground (arith, taken.sized)

  start_new :
      (p b : Option ℕ)
      → Before sizes addr p
      → (a n : ℕ) → sizes a ≡ some n
      → points p a ≡ false
      → (start p addr == a) ≡ false
  start_new none b h a n e f = ground (arith, taken.clear a n e, apart.sized a n e, taken.sized)
  start_new (some p) b h a n e f = ground arith

  pub merged-Free :
      (after : Sizes) (p b : Option ℕ)
      → Before sizes addr p
      → Behind sizes (addr + size) b
      → ((x : ℕ)
          → after x ≡ (
              if start p addr == x
              then some (size + extra b sizes + extra p (without b sizes))
              else without p (without b sizes) x))
      → (x : ℕ) → Free after x ↔ FreeOrIn addr size sizes x
  merged-Free after p b h k e x = (
    λ (a, n, f, l, u). elim (Bool-cases (start p addr == a)) [
      | inl g ↦ merged-FreeOrIn p b h k x (ground arith) (ground (arith, e a))
      | inr g ↦ inl (a, n, ground (arith, e a), l, u)
    ],
    λ w. elim w [
      | inr block ↦
          let r = FreeOrIn-merged p b h k x (inl block) in
          (start p addr, _, ground (arith, e (start p addr)), r.0, r.1)
      | inl (a, n, f, l, u) ↦ elim (Bool-cases (points p a)) [
        | inl g ↦
            let r = FreeOrIn-merged p b h k x (inr (a, n, f, l, u, inl g)) in
            (start p addr, _, ground (arith, e (start p addr)), r.0, r.1)
        | inr g ↦ elim (Bool-cases (points b a)) [
          | inl d ↦
              let r = FreeOrIn-merged p b h k x (inr (a, n, f, l, u, inr d)) in
              (start p addr, _, ground (arith, e (start p addr)), r.0, r.1)
          | inr d ↦ (a, n, ground (arith, e a, start_new p b h a n f g), l, u)
        ]
      ]
    ],
  )
