-- ===== src/Stable/Memory.antt =====
-- ic-kit-stable/src/core/memory.rs: the memory that an allocator owns, behind its operations.
pub mod Heap
use ic_kit.Base.{ℕ, ◌+◌, ◌*◌, ◌^◌, ◌≤◌, ◌≡◌, ◌⊎◌, Option, none, some, ◌++◌, length, Returns}
use ic_kit.Certified.HashTree.{Bytes}

-- `trait Memory`. An access out of range traps, which is `none`; `none` of `stable_grow` is the result -1.
pub record Memory (M : Type 0) : Type 0 where
  pub stable_size : M → ℕ
  pub stable_grow : ℕ → M → M × Option ℕ
  pub stable_read : ℕ → ℕ → M → Option Bytes
  pub stable_write : ℕ → Bytes → M → Option M

module _ {M : Type 0} (memory : Memory M) (Good : M → Type 0) where
  open memory use {stable_size, stable_grow, stable_read, stable_write}

  -- `n` differs from `m` at most in `size` bytes from `offset` on.
  pub record Kept (offset size : ℕ) (m n : M) : Type 0 where
    pub good : Good n
    pub same_size : stable_size n ≡ stable_size m
    pub same :
        (o k : ℕ) → (o + k ≤ offset) ⊎ (offset + size ≤ o) → stable_read o k n ≡ stable_read o k m

  -- What growing does, by its result.
  abbrev pub Grown : ℕ → M → M → Option ℕ → Type 0
  Grown new_pages m n none = n ≡ m
  Grown new_pages m n (some pages) =
      (pages ≡ stable_size m)
      × (stable_size n ≡ pages + new_pages)
      × Good n
      × ((o k : ℕ) → o + k ≤ pages * 2 ^ 16 → stable_read o k n ≡ stable_read o k m)

  -- What the allocator relies on: a write within the memory's pages, of 2 ^ 16 bytes, does not trap, is read
  -- back, and changes nothing else; a read is a prefix of a longer one; there are
  -- at most 2 ^ 39 bytes; growing adds the pages or changes nothing.
  pub record IsMemory : Type 0 where
    pub write :
        (offset : ℕ) (buf : Bytes) (m : M)
        → Good m
        → offset + length buf ≤ stable_size m * 2 ^ 16
        → Returns
            (λ n. Kept offset (length buf) m n × (stable_read offset (length buf) n ≡ some buf))
            (stable_write offset buf m)
    pub grow :
        (new_pages : ℕ) (m : M)
        → Good m
        → new_pages ≤ 2 ^ 48
        → Grown new_pages m (stable_grow new_pages m).0 (stable_grow new_pages m).1
    pub most : (m : M) → Good m → stable_size m ≤ 2 ^ 23
    pub read_prefix :
        (offset : ℕ) (xs ys : Bytes) (m : M)
        → stable_read offset (length xs + length ys) m ≡ some (xs ++ ys)
        → stable_read offset (length xs) m ≡ some xs
