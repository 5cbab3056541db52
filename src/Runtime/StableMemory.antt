-- ===== src/Runtime/StableMemory.antt =====
-- ic-kit-runtime/src/stable.rs: the stable memory on the heap, in pages of 2 ^ 16 bytes. An index out of
-- range panics, which is `none`.

pub mod Laws
use ic_kit.Base.{
  ℕ, zero, suc, ◌+◌, ◌-◌, ◌*◌, ◌/◌, ◌%◌, ◌^◌, Option, none, some, ◌>>=◌, List, [], ◌∷◌, ◌++◌,
  length, ltb, if◌then◌else◌,
}
use ic_kit.Certified.HashTree.{Bytes}

abbrev pub Page : Type 0
Page = Bytes

pub record HeapStableMemory : Type 0 where
  pub pages : List Page
  pub max_pages : ℕ

-- `Default`: `128 << 20 >> 16` pages.
unfoldable pub default_memory : HeapStableMemory
default_memory = record { pages = []; max_pages = 128 * 2 ^ 20 / 2 ^ 16 }

unfoldable pub new_memory : ℕ → HeapStableMemory
new_memory max_pages = record { pages = []; max_pages = max_pages }

unfoldable pub stable_size : HeapStableMemory → ℕ
stable_size m = length m.pages

unfoldable pub replicate : {A : Type 0} → ℕ → A → List A
replicate zero a = []
replicate (suc n) a = a ∷ replicate n a

-- `stable_grow`: `none` is the result -1.
unfoldable pub stable_grow : ℕ → HeapStableMemory → HeapStableMemory × Option ℕ
unfolding replicate
stable_grow new_pages m =
    let size = length m.pages in
    if ltb m.max_pages ((new_pages + size) % 2 ^ 64)
    then (m, none)
    else (record m { pages = m.pages ++ replicate new_pages (replicate (2 ^ 16) 0) }, some size)

module _ {A : Type 0} where
  -- Indexing a vector.
  unfoldable pub at : List A → ℕ → Option A
  at [] i = none
  at (x ∷ xs) zero = some x
  at (x ∷ xs) (suc i) = at xs i

  -- Assigning to a place of a vector.
  unfoldable pub assign : List A → ℕ → A → Option (List A)
  assign [] i a = none
  assign (x ∷ xs) zero a = some (a ∷ xs)
  assign (x ∷ xs) (suc i) a = do ys ← assign xs i a; some (x ∷ ys)

-- One round of the loop of `stable_read`.
unfoldable pub read_byte : ℕ → HeapStableMemory → Option ℕ
unfolding at
read_byte offset m =
    let page = offset / 2 ^ 16 in
    let byte = offset - page * 2 ^ 16 in do bytes ← at m.pages page; at bytes byte

-- `stable_read` of a buffer of the given length: what the buffer holds afterwards.
unfoldable pub stable_read : ℕ → ℕ → HeapStableMemory → Option Bytes
unfolding read_byte
stable_read offset zero m = some []
stable_read offset (suc n) m = do
  b ← read_byte offset m
  rest ← stable_read (suc offset) n m
  some (b ∷ rest)

-- One round of the loop of `stable_write`.
unfoldable pub write_byte : ℕ → ℕ → HeapStableMemory → Option HeapStableMemory
unfolding at assign
write_byte offset b m =
    let page = offset / 2 ^ 16 in
    let byte = offset - page * 2 ^ 16 in
    do
      bytes ← at m.pages page
      bytes ← assign bytes byte b
      pages ← assign m.pages page bytes
      some (record m { pages = pages })

unfoldable pub stable_write : ℕ → Bytes → HeapStableMemory → Option HeapStableMemory
unfolding write_byte
stable_write offset [] m = some m
stable_write offset (b ∷ buf) m = do m ← write_byte offset b m; stable_write (suc offset) buf m
