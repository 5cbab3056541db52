-- ===== src/Stable/HoleList/Merge.antt =====
-- A block that is freed is merged with the holes that touch it: the free bytes are those of the holes and
-- those of the block.
use ic_kit.Base.{
  ℕ, ◌+◌, ◌≤◌, ◌<◌, ◌≡◌, Option, none, some, unwrap_or, arith, if◌then◌else◌, Option-cases, ◌⊎◌,
  inl, inr,
}
use ic_kit.Stable.HoleList.Links.{points}
use ic_kit.Stable.HoleList.Invariant.{Apart}
use ic_kit.Stable.HoleList.Link.{Fresh}
use ic_kit.Stable.HoleList.Neighbours.{Before, Behind}

abbrev pub Sizes : Type 0
Sizes = ℕ → Option ℕ

-- The byte at `x` belongs to a hole.
abbrev pub Free : Sizes → ℕ → Type 0
Free sizes x = (a : ℕ) × (n : ℕ) × (sizes a ≡ some n) × (a ≤ x) × (x < a + n)

-- A block of at least the smallest size, below the limit, of which no byte is free.
pub record IsTaken (limit addr size : ℕ) (sizes : Sizes) : Type 0 where
  pub sized : (16 ≤ size) × (addr + size ≤ limit)
  pub clear : (a n : ℕ) → sizes a ≡ some n → (a + n ≤ addr) ⊎ (addr + size ≤ a)

-- The holes that stay when a neighbour is merged.
abbrev pub without : Option ℕ → Sizes → Sizes
without p sizes x = if points p x then none else sizes x

abbrev pub extra : Option ℕ → Sizes → ℕ
extra none sizes = 0
extra (some a) sizes = elim (sizes a) [ none ↦ 0 | some n ↦ n ]

abbrev pub start : Option ℕ → ℕ → ℕ
start p addr = unwrap_or p addr

module _ {limit addr size : ℕ} {sizes : Sizes} (apart : Apart limit sizes)
    (taken : IsTaken limit addr size sizes) where
  pub merged-Fresh :
      (p b : Option ℕ)
      → Before sizes addr p
      → Behind sizes (addr + size) b
      → Fresh limit
          (start p addr)
          (size + extra b sizes + extra p (without b sizes))
          (without p (without b sizes))
  merged-Fresh none none h k = record {
    new = elim (Option-cases (sizes addr)) [
      | inl e ↦ e
      | inr (n, e) ↦
          absurd (ground (arith, taken.clear addr n e, apart.sized addr n e, taken.sized))
    ];
    sized = ground (arith, taken.sized);
    before = λ a n e l. ground (arith, taken.clear a n e, h a n e, taken.sized);
    behind = λ a n e l. ground (arith, taken.clear a n e, k, taken.sized, apart.sized a n e);
  }
  merged-Fresh none (some b) h (at, (m, k)) = record {
    new = elim (Option-cases (sizes addr)) [
      | inl e ↦ ground arith
      | inr (n, e) ↦
          absurd (ground (arith, taken.clear addr n e, apart.sized addr n e, taken.sized))
    ];
    sized = ground (arith, taken.sized, apart.sized b m k);
    before = λ a n e l. ground (arith, taken.clear a n, h a n, taken.sized);
    behind =
        λ a n e l. ground (arith, taken.clear a n, taken.sized, apart.sized a n, apart.gap b a m n);
  }
  merged-Fresh (some p) none (n, h, at) k = record {
    new = ground arith;
    sized = ground (arith, taken.sized, apart.sized p n h);
    before = λ a m e l. ground (arith, apart.gap a p m n);
    behind = λ a m e l. ground (
      arith,
      taken.clear a m,
      k,
      taken.sized,
      apart.sized a m,
      apart.gap p a n m,
      apart.sized p n h,
    );
  }
  merged-Fresh (some p) (some b) (n, h, at) (at', (m, k)) = record {
    new = ground arith;
    sized = ground (arith, taken.sized, apart.sized p n h, apart.sized b m k);
    before = λ a o e l. ground (arith, apart.gap a p o n);
    behind = λ a o e l. ground (
      arith,
      taken.clear a o,
      taken.sized,
      apart.sized a o,
      apart.gap p a n o,
      apart.gap b a m o,
      apart.sized b m k,
    );
  }
