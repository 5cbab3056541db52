-- ===== src/Stable/Allocator/Grow.antt =====
-- The memory grows by a block that becomes a hole.
use ic_kit.Base.{ℕ, ◌+◌, ◌^◌, ◌≤◌, ◌<◌, ◌≡◌, inl, inr, some, ltb, arith, Bool-cases}
use ic_kit.Stable.HoleList.{HoleList}
use ic_kit.Stable.HoleList.Invariant.{Apart, IsHoleList, size_at}
use ic_kit.Stable.HoleList.Merge.{Sizes, Free, IsTaken}

-- A greater limit.
pub IsHoleList-limit :
    {limit larger : ℕ} {list : HoleList}
    → limit ≤ larger
    → larger ≤ 2 ^ 39
    → IsHoleList limit list
    → IsHoleList larger list
IsHoleList-limit h k valid = record {
  age = valid.age;
  top = valid.top;
  linked = valid.linked;
  apart = record {
    sized = λ a n e. let s = valid.apart.sized a n e in (s.0, omega arith);
    gap = valid.apart.gap;
  };
  bounded = valid.bounded;
  limit_le = k;
}

-- What lies above the limit is taken.
pub above-IsTaken :
    {limit size : ℕ} {list : HoleList}
    → IsHoleList limit list
    → 16 ≤ size
    → IsTaken (limit + size) limit size (size_at list)
above-IsTaken valid h = record {
  sized = (h, omega arith);
  clear = λ a n e. inl (let s = valid.apart.sized a n e in s.1);
}

-- Holes do not touch, so free bytes in a row lie in one hole.
pub one_hole :
    {limit : ℕ} (sizes : Sizes) (addr size : ℕ)
    → Apart limit sizes
    → 0 < size
    → ((x : ℕ) → addr ≤ x → x < addr + size → Free sizes x)
    → (a : ℕ) × (n : ℕ) × (sizes a ≡ some n) × (size ≤ n)
one_hole sizes addr size apart pos free =
    let (a, n, e, l, u) = free addr (omega arith) (omega arith) in
    elim (Bool-cases (ltb (a + n) (addr + size))) [
      | inr enough ↦ (a, n, e, ground arith)
      | inl short ↦
          let (b, m, f, k, v) = free (a + n) (omega arith) (ground arith) in
          absurd (ground (arith, apart.gap a b n m, apart.gap b a m n))
    ]
