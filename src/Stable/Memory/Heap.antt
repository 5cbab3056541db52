-- ===== src/Stable/Memory/Heap.antt =====
-- The memory of tests, `MockMemory` of ic-kit-stable/src/core/memory.rs: the stable memory of
-- ic-kit-runtime/src/stable.rs has what the allocator relies on.
use ic_kit.Base.{
  ℕ, zero, suc, ◌+◌, ◌-◌, ◌*◌, ◌/◌, ◌%◌, ◌^◌, ◌≤◌, ◌<◌, ◌≡◌, refl, sym, false, ap, subst, ◌∙◌,
  arith, Option, none, some, List, [], ◌∷◌, ◌++◌, Option-cases, Bool-cases, inl, inr, ◌⊎◌, length,
  length-append, ltb, Returns, Returns-imp, Returns-bind, All, All-append,
}
use ic_kit.Certified.HashTree.{Bytes}
use ic_kit.Runtime.StableMemory
use ic_kit.Runtime.StableMemory.{
  HeapStableMemory, Page, at, assign, read_byte, write_byte, replicate,
}
use ic_kit.Runtime.StableMemory.Laws.{
  read_byte-write_byte, stable_read-stable_write, length-replicate, stable_grow-Grown,
  Grown as HeapGrown,
}
use ic_kit.Stable.Memory.{Memory, IsMemory, Grown}

unfoldable pub mock_memory : Memory HeapStableMemory
mock_memory = record {
  stable_size = StableMemory.stable_size;
  stable_grow = StableMemory.stable_grow;
  stable_read = StableMemory.stable_read;
  stable_write = StableMemory.stable_write;
}

abbrev IsPage : Page → Type 0
IsPage page = length page ≡ 2 ^ 16

-- The pages are whole, and there are no more than the limit, which is at most 2 ^ 39 bytes.
pub record IsWhole (m : HeapStableMemory) : Type 0 where
  pub whole : All IsPage m.pages
  pub within : length m.pages ≤ m.max_pages
  pub limit : m.max_pages ≤ 2 ^ 23

module _ {A : Type 0} (P : A → Type 0) where
  at-All : (xs : List A) (i : ℕ) → i < length xs → All P xs → Returns P (at xs i)
  unfolding at
  at-All [] i h p = absurd (omega arith)
  at-All (x ∷ xs) zero h p = p.0
  at-All (x ∷ xs) (suc i) h p = at-All xs i (omega arith) p.1

  assign-All :
      (xs : List A) (i : ℕ) (a : A)
      → i < length xs
      → All P xs
      → P a
      → Returns (λ ys. All P ys × (length ys ≡ length xs)) (assign xs i a)
  unfolding assign
  assign-All [] i a h p q = absurd (omega arith)
  assign-All (x ∷ xs) zero a h p q = ((q, p.1), refl)
  assign-All (x ∷ xs) (suc i) a h p q =
      Returns-bind (λ ys. All P ys × (length ys ≡ length xs)) _ _ _
        (assign-All xs i a (omega arith) p.1 q) λ ys (r, l). ((p.0, r), ap suc l)

assign-length :
    (xs : Bytes) (i a : ℕ) → i < length xs → Returns (λ ys. length ys ≡ length xs) (assign xs i a)
unfolding assign
assign-length [] i a h = absurd (omega arith)
assign-length (x ∷ xs) zero a h = refl
assign-length (x ∷ xs) (suc i) a h =
    Returns-bind (λ ys. length ys ≡ length xs) _ _ _ (assign-length xs i a (omega arith))
      λ ys l. ap suc l

not_above : (a b : ℕ) → ltb a b ≡ false → b ≤ a
not_above a b e = ground arith

-- A byte in range is written.
write_byte-IsWhole :
    (offset b : ℕ) (m : HeapStableMemory)
    → IsWhole m
    → offset < length m.pages * 2 ^ 16
    → Returns (λ n. IsWhole n × (length n.pages ≡ length m.pages)) (write_byte offset b m)
unfolding write_byte
write_byte-IsWhole offset b m w h =
    let i = offset / 2 ^ 16 in
    let j = offset - i * 2 ^ 16 in
    Returns-bind IsPage _ _ _ (at-All IsPage m.pages i (omega arith) w.whole) λ page p.
      Returns-bind (λ page'. length page' ≡ length page) _ _ _
        (assign-length page j b (omega arith))
        λ page' l.
          Returns-bind (λ pages. All IsPage pages × (length pages ≡ length m.pages)) _ _ _
            (assign-All IsPage m.pages i page' (omega arith) w.whole (l ∙ p))
            λ pages (q, k).
              (record { whole = q; within = let x = w.within in omega arith; limit = w.limit }, k)

abbrev Written : ℕ → ℕ → HeapStableMemory → HeapStableMemory → Type 0
Written offset size m n =
    IsWhole n
    × (length n.pages ≡ length m.pages)
    × ((j : ℕ) → (j < offset) ⊎ (offset + size ≤ j) → read_byte j n ≡ read_byte j m)

All-any : (xs : Bytes) → All (λ _. Unit {0}) xs
All-any [] = tt
All-any (x ∷ xs) = (tt, All-any xs)

write-IsWhole :
    (buf : Bytes) (offset : ℕ) (m : HeapStableMemory)
    → IsWhole m
    → offset + length buf ≤ length m.pages * 2 ^ 16
    → Returns (Written offset (length buf) m) (StableMemory.stable_write offset buf m)
unfolding StableMemory.stable_write
write-IsWhole [] offset m w h = (w, refl, λ j d. refl)
write-IsWhole (b ∷ buf) offset m w h = elim (Option-cases (write_byte offset b m)) [
  | inl e ↦ absurd (
      subst (Returns (λ n. IsWhole n × (length n.pages ≡ length m.pages))) e
        (write_byte-IsWhole offset b m w (omega arith)))
  | inr (n, e) ↦
      let (w', l) =
        subst (Returns (λ n. IsWhole n × (length n.pages ≡ length m.pages))) e
          (write_byte-IsWhole offset b m w (omega arith)) in
      rw e (
        Returns-imp (Written (suc offset) (length buf) n) (Written offset (suc (length buf)) m) _
          (write-IsWhole buf (suc offset) n w' (omega arith))
          λ o (w'', l', same). (
            w'',
            l' ∙ l,
            λ j d.
                same j (ground arith)
                ∙ (let r = read_byte-write_byte offset b j m n e in ground arith),
          ))
]

stable_read-ext :
    (k o : ℕ) (m n : HeapStableMemory)
    → ((j : ℕ) → o ≤ j → j < o + k → read_byte j n ≡ read_byte j m)
    → StableMemory.stable_read o k n ≡ StableMemory.stable_read o k m
unfolding StableMemory.stable_read
stable_read-ext zero o m n e = refl
stable_read-ext (suc k) o m n e =
    ground (arith, e o, stable_read-ext k (suc o) m n (λ j l u. e j (omega arith) (omega arith)))

read_prefix_lem :
    (offset : ℕ) (xs ys : Bytes) (m : HeapStableMemory)
    → StableMemory.stable_read offset (length xs + length ys) m ≡ some (xs ++ ys)
    → StableMemory.stable_read offset (length xs) m ≡ some xs
unfolding StableMemory.stable_read
read_prefix_lem offset [] ys m e = refl
read_prefix_lem offset (x ∷ xs) ys m e =
    let count : suc (length xs) + length ys ≡ suc (length xs + length ys) = omega arith in
    let e' : StableMemory.stable_read offset (suc (length xs + length ys)) m
        ≡ some (x ∷ (xs ++ ys)) =
      ap (λ k. StableMemory.stable_read offset k m) (sym count) ∙ e in
    elim (Option-cases (read_byte offset m)) [
      | inl f ↦ absurd (ground arith)
      | inr (b, f) ↦
          elim (Option-cases (StableMemory.stable_read (suc offset) (length xs + length ys) m)) [
            | inl g ↦ absurd (ground arith)
            | inr (rest, g) ↦
                let same : rest ≡ xs ++ ys = ground arith in
                let ih = read_prefix_lem (suc offset) xs ys m (g ∙ ap some same) in ground arith
          ]
    ]

-- A byte in range can be read.
read_byte-Returns :
    (offset : ℕ) (m : HeapStableMemory)
    → IsWhole m
    → offset < length m.pages * 2 ^ 16
    → Returns (λ _. Unit {0}) (read_byte offset m)
unfolding read_byte
read_byte-Returns offset m w h =
    Returns-bind IsPage _ _ _ (at-All IsPage m.pages (offset / 2 ^ 16) (omega arith) w.whole)
      λ page p.
        Returns-imp (λ _. Unit {0}) _ _
          (at-All (λ _. Unit {0}) page (offset - offset / 2 ^ 16 * 2 ^ 16) (omega arith)
            (All-any page))
          λ _ u. u

All-replicate : (k : ℕ) (page : Page) → IsPage page → All IsPage (replicate k page)
unfolding replicate
All-replicate zero page p = tt
All-replicate (suc k) page p = (p, All-replicate k page p)

-- Growing keeps the pages whole.
grow-IsWhole :
    (new_pages : ℕ) (m : HeapStableMemory)
    → IsWhole m
    → new_pages ≤ 2 ^ 48
    → (k : ℕ) → (StableMemory.stable_grow new_pages m).1 ≡ some k
    → IsWhole (StableMemory.stable_grow new_pages m).0
unfolding StableMemory.stable_grow
grow-IsWhole new_pages m w h k is =
    let within = w.within in
    let limit = w.limit in
    let exact : (new_pages + length m.pages) % 2 ^ 64 ≡ new_pages + length m.pages = omega arith in
    let page : Page = replicate (2 ^ 16) 0 in
    elim (Bool-cases (ltb m.max_pages ((new_pages + length m.pages) % 2 ^ 64))) [
      | inl e ↦ rw e w
      | inr e ↦ rw e (record {
        whole =
            All-append IsPage m.pages (replicate new_pages page) w.whole
              (All-replicate new_pages page (length-replicate {A = ℕ} (2 ^ 16) 0));
        within = omega (
          arith,
          length-append m.pages (replicate new_pages page),
          length-replicate new_pages page,
          not_above _ _ e,
        );
        limit = limit;
      })
    ]

grow-Grown :
    (new_pages : ℕ) (m n : HeapStableMemory) (r : Option ℕ)
    → IsWhole m
    → ((k : ℕ) → r ≡ some k → IsWhole n)
    → HeapGrown new_pages m n r
    → Grown mock_memory IsWhole new_pages m n r
unfolding mock_memory StableMemory.stable_size
grow-Grown new_pages m n none w whole g = g.0
grow-Grown new_pages m n (some k) w whole (at, size, within, max, bytes) = (
  at,
  size,
  whole k refl,
  λ o i h. stable_read-ext i o m n λ j l u. elim (Option-cases (read_byte j m)) [
    | inl f ↦ absurd (subst (Returns (λ _. Unit {0})) f (read_byte-Returns j m w (omega arith)))
    | inr (b, f) ↦ bytes j b f ∙ sym f
  ],
)

pub mock_memory-IsMemory : IsMemory mock_memory IsWhole
unfolding mock_memory StableMemory.stable_size
mock_memory-IsMemory = record {
  write = λ offset buf m w h. elim (Option-cases (StableMemory.stable_write offset buf m)) [
    | inl e ↦
        absurd (subst (Returns (Written offset (length buf) m)) e (write-IsWhole buf offset m w h))
    | inr (n, e) ↦
        let (w', l, same) =
          subst (Returns (Written offset (length buf) m)) e (write-IsWhole buf offset m w h) in
        rw e (
          record {
            good = w';
            same_size = l;
            same = λ o k d. stable_read-ext k o m n λ j l u. same j (ground arith);
          },
          stable_read-stable_write buf offset m n e,
        )
  ];
  grow = λ new_pages m w h.
      grow-Grown new_pages m (StableMemory.stable_grow new_pages m).0
        (StableMemory.stable_grow new_pages m).1 w (grow-IsWhole new_pages m w h)
        (stable_grow-Grown new_pages m (let a = w.within in let b = w.limit in omega arith));
  most = λ m w. let a = w.within in let b = w.limit in omega arith;
  read_prefix = read_prefix_lem;
}
