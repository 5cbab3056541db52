-- ===== src/Runtime/StableMemory/Laws.antt =====
-- The stable memory of stable.rs: what is written is read back, and growing keeps what is there.
use ic_kit.Base.{
  ℕ, zero, suc, ◌+◌, ◌-◌, ◌*◌, ◌/◌, ◌%◌, ◌^◌, ◌≤◌, ◌<◌, ◌≡◌, refl, ap, arith, Option, none, some,
  List, [], ◌∷◌, ◌++◌, Option-cases, Bool-cases, inl, inr, length, length-append, ltb, ◌==◌,
  if◌then◌else◌,
}
use ic_kit.Certified.HashTree.{Bytes}
use ic_kit.Runtime.StableMemory.{
  HeapStableMemory, Page, at, assign, read_byte, write_byte, stable_read, stable_write, stable_grow,
  stable_size, replicate,
}

module _ {A : Type 0} where
  at-assign :
      (xs : List A) (i j : ℕ) (a : A) (ys : List A)
      → assign xs i a ≡ some ys
      → at ys j ≡ (if i == j then some a else at xs j)
  unfolding at assign
  at-assign [] i j a ys e = absurd (cc)
  at-assign (x ∷ xs) zero zero a ys e = ground arith
  at-assign (x ∷ xs) zero (suc j) a ys e = ground arith
  at-assign (x ∷ xs) (suc i) zero a ys e = elim (Option-cases (assign xs i a)) [
    | inl f ↦ absurd (ground arith)
    | inr (zs, f) ↦ ground arith
  ]
  at-assign (x ∷ xs) (suc i) (suc j) a ys e = elim (Option-cases (assign xs i a)) [
    | inl f ↦ absurd (ground arith)
    | inr (zs, f) ↦ let ih = at-assign xs i j a zs f in ground arith
  ]

  at-append : (xs ys : List A) (i : ℕ) (a : A) → at xs i ≡ some a → at (xs ++ ys) i ≡ some a
  unfolding at
  at-append [] ys i a e = absurd (cc)
  at-append (x ∷ xs) ys zero a e = e
  at-append (x ∷ xs) ys (suc i) a e = at-append xs ys i a e

-- The byte at `j` after a byte is written at `offset`.
pub read_byte-write_byte :
    (offset b j : ℕ) (m n : HeapStableMemory)
    → write_byte offset b m ≡ some n
    → read_byte j n ≡ (if offset == j then some b else read_byte j m)
unfolding read_byte write_byte
read_byte-write_byte offset b j m n e = elim (Option-cases (at m.pages (offset / 2 ^ 16))) [
  | inl f ↦ absurd (ground arith)
  | inr (page, f) ↦ elim (Option-cases (assign page (offset - offset / 2 ^ 16 * 2 ^ 16) b)) [
    | inl g ↦ absurd (ground arith)
    | inr (page', g) ↦ elim (Option-cases (assign m.pages (offset / 2 ^ 16) page')) [
      | inl h ↦ absurd (ground arith)
      | inr (pages, h) ↦
          let p = at-assign m.pages (offset / 2 ^ 16) (j / 2 ^ 16) page' pages h in
          let q =
            at-assign page (offset - offset / 2 ^ 16 * 2 ^ 16) (j - j / 2 ^ 16 * 2 ^ 16) b page'
              g in
          ground arith
    ]
  ]
]

stable_write-before :
    (buf : Bytes) (offset j : ℕ) (m n : HeapStableMemory)
    → stable_write offset buf m ≡ some n
    → j < offset
    → read_byte j n ≡ read_byte j m
unfolding stable_write
stable_write-before [] offset j m n e h = ap (read_byte j) (let x : n ≡ m = cc in x)
stable_write-before (b ∷ buf) offset j m n e h = elim (Option-cases (write_byte offset b m)) [
  | inl f ↦ absurd (ground arith)
  | inr (m', f) ↦
      let e' : stable_write (suc offset) buf m' ≡ some n = ground arith in
      let p = stable_write-before buf (suc offset) j m' n e' (omega arith) in
      let q = read_byte-write_byte offset b j m m' f in ground arith
]

-- A write that does not go out of range is read back, byte for byte.
pub stable_read-stable_write :
    (buf : Bytes) (offset : ℕ) (m n : HeapStableMemory)
    → stable_write offset buf m ≡ some n
    → stable_read offset (length buf) n ≡ some buf
unfolding stable_read stable_write
stable_read-stable_write [] offset m n e = refl
stable_read-stable_write (b ∷ buf) offset m n e = elim (Option-cases (write_byte offset b m)) [
  | inl f ↦ absurd (ground arith)
  | inr (m', f) ↦
      let e' : stable_write (suc offset) buf m' ≡ some n = ground arith in
      let p = stable_write-before buf (suc offset) offset m' n e' (omega arith) in
      let q = read_byte-write_byte offset b offset m m' f in
      let ih = stable_read-stable_write buf (suc offset) m' n e' in ground arith
]

pub length-replicate : {A : Type 0} (n : ℕ) (a : A) → length (replicate n a) ≡ n
unfolding replicate
length-replicate zero a = refl
length-replicate (suc n) a = omega (arith, length-replicate n a)

-- How growing by `new_pages` changes the memory, by its result.
abbrev pub Grown : ℕ → HeapStableMemory → HeapStableMemory → Option ℕ → Type 0
Grown new_pages m n none = (n ≡ m) × (m.max_pages < stable_size m + new_pages)
Grown new_pages m n (some size) =
    (size ≡ stable_size m)
    × (stable_size n ≡ size + new_pages)
    × (stable_size n ≤ m.max_pages)
    × (n.max_pages ≡ m.max_pages)
    × ((offset b : ℕ) → read_byte offset m ≡ some b → read_byte offset n ≡ some b)

read_byte-append :
    (new : List Page) (m : HeapStableMemory) (offset b : ℕ)
    → read_byte offset m ≡ some b
    → read_byte offset (record m { pages = m.pages ++ new }) ≡ some b
unfolding read_byte
read_byte-append new m offset b e = elim (Option-cases (at m.pages (offset / 2 ^ 16))) [
  | inl f ↦ absurd (ground arith)
  | inr (page, f) ↦ let g = at-append m.pages new (offset / 2 ^ 16) page f in ground arith
]

-- Where the sum of the pages fits in 64 bits, growing returns the size before it and adds as many pages, keeping
-- every byte, where the limit allows them; else it changes nothing.
pub stable_grow-Grown :
    (new_pages : ℕ) (m : HeapStableMemory)
    → new_pages + stable_size m < 2 ^ 64
    → Grown new_pages m (stable_grow new_pages m).0 (stable_grow new_pages m).1
unfolding stable_grow stable_size
stable_grow-Grown new_pages m h =
    let exact : (new_pages + length m.pages) % 2 ^ 64 ≡ new_pages + length m.pages = omega arith in
    elim (Bool-cases (ltb m.max_pages (new_pages + length m.pages))) [
      | inl e ↦ rw exact (rw e (refl, ground arith))
      | inr e ↦
          let page : Page = replicate (2 ^ 16) 0 in
          let l = length-append m.pages (replicate new_pages page) in
          let k = length-replicate new_pages page in
          rw exact (
            rw e (
              refl,
              omega arith,
              ground arith,
              refl,
              λ offset b r. read_byte-append (replicate new_pages page) m offset b r,
            ))
    ]
