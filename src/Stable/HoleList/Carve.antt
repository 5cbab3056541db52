-- ===== src/Stable/HoleList/Carve.antt =====
-- A block that is taken from a hole: the free bytes are those of the holes but the block's.
use ic_kit.Base.{
  ℕ, ◌+◌, ◌≤◌, ◌<◌, ◌≡◌, false, none, some, ltb, ◌==◌, arith, if◌then◌else◌, ◌↔◌, Option-cases,
  Bool-cases, ◌⊎◌, inl, inr,
}
use ic_kit.Stable.HoleList.Invariant.{Apart}
use ic_kit.Stable.HoleList.Link.{Fresh}
use ic_kit.Stable.HoleList.Merge.{Sizes, Free, IsTaken}

-- The holes after `got` bytes are taken from the hole at `addr`: the rest is a hole again, or there is none.
abbrev pub Carved : ℕ → ℕ → ℕ → Sizes → Sizes → Type 0
Carved addr got whole sizes after =
    ((got ≡ whole) × ((x : ℕ) → after x ≡ (if addr == x then none else sizes x)))
    ⊎ ((rest : ℕ) × (16 ≤ rest)
        × (got + rest ≡ whole)
        × ((x : ℕ)
            → after x
              ≡ (if addr + got == x then some rest else if addr == x then none else sizes x)))

module _ {limit addr got whole : ℕ} {sizes after : Sizes} (apart : Apart limit sizes)
    (here : sizes addr ≡ some whole) (enough : 16 ≤ got) where
  -- The rest of a hole that has been removed.
  pub rest-Fresh :
      (rest : ℕ)
      → 16 ≤ rest
      → got + rest ≡ whole
      → ((x : ℕ) → after x ≡ (if addr == x then none else sizes x))
      → Fresh limit (addr + got) rest after
  rest-Fresh rest h k e = record {
    new = elim (Option-cases (sizes (addr + got))) [
      | inl f ↦ ground (arith, e (addr + got))
      | inr (n, f) ↦ absurd (ground (arith, apart.gap addr (addr + got) whole n here f))
    ];
    sized = ground (arith, apart.sized addr whole here);
    before = λ a n f l. ground (arith, e a, apart.gap a addr n whole, apart.gap addr a whole n);
    behind = λ a n f l. ground (arith, e a, apart.gap a addr n whole, apart.gap addr a whole n);
  }

  module _ (carved : Carved addr got whole sizes after) where
    pub carved-IsTaken : IsTaken limit addr got after
    carved-IsTaken = elim carved [
      | inl (e, f) ↦ record {
        sized = ground (arith, apart.sized addr whole here);
        clear = λ a n k. elim (Bool-cases (ltb a addr)) [
          | inl l ↦ inl (ground (arith, f a, apart.gap a addr n whole))
          | inr l ↦ inr (ground (arith, f a, apart.gap addr a whole n))
        ];
      }
      | inr (rest, h, e, f) ↦ record {
        sized = ground (arith, apart.sized addr whole here);
        clear = λ a n k. elim (Bool-cases (ltb a addr)) [
          | inl l ↦ inl (ground (arith, f a, apart.gap a addr n whole))
          | inr l ↦ inr (ground (arith, f a, apart.gap addr a whole n))
        ];
      }
    ]

    -- The bytes of the block were free.
    pub block-Free : (x : ℕ) → addr ≤ x → x < addr + got → Free sizes x
    block-Free x l u = (addr, whole, here, l, ground arith)

    outside :
        (a n x : ℕ)
        → sizes a ≡ some n
        → (addr == a) ≡ false
        → a ≤ x
        → x < a + n
        → (x < addr) ⊎ (addr + got ≤ x)
    outside a n x f ne l u = elim (Bool-cases (ltb x addr)) [
      | inl e ↦ inl (ground arith)
      | inr e ↦ elim carved [
        | inl (is, _) ↦ inr (ground (arith, apart.gap a addr n whole, apart.gap addr a whole n))
        | inr (rest, h, is, _) ↦
            inr (ground (arith, apart.gap a addr n whole, apart.gap addr a whole n))
      ]
    ]

    pub carved-Free : (x : ℕ) → Free after x ↔ (Free sizes x × ((x < addr) ⊎ (addr + got ≤ x)))
    carved-Free x = (
      λ (a, n, f, l, u). elim carved [
        | inl (e, g) ↦
            let old : sizes a ≡ some n = ground (arith, g a) in
            ((a, n, old, l, u), outside a n x old (ground (arith, g a)) l u)
        | inr (rest, h, e, g) ↦ elim (Bool-cases (addr + got == a)) [
          | inl d ↦ ((addr, whole, here, ground arith, ground (arith, g a)), inr (ground arith))
          | inr d ↦
              let old : sizes a ≡ some n = ground (arith, g a) in
              ((a, n, old, l, u), outside a n x old (ground (arith, g a)) l u)
        ]
      ],
      λ ((a, n, f, l, u), out). elim (Bool-cases (addr == a)) [
        | inl d ↦ elim carved [
          | inl (e, g) ↦ absurd (ground arith)
          | inr (rest, h, e, g) ↦
              (addr + got, rest, ground (arith, g (addr + got)), ground arith, ground arith)
        ]
        | inr d ↦ elim carved [
          | inl (e, g) ↦ (a, n, ground (arith, g a), l, u)
          | inr (rest, h, e, g) ↦ (a, n, ground (arith, g a, apart.gap addr a whole n), l, u)
        ]
      ],
    )
