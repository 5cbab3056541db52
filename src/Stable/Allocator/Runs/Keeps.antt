-- ===== src/Stable/Allocator/Runs/Keeps.antt =====
-- What each step of the allocator in use keeps.
use ic_kit.Base.{
  ℕ, ◌+◌, ◌≤◌, ◌<◌, ◌≡◌, ◌∙◌, ◌⊎◌, inl, inr, subst, none, some, ltb, leb, ◌==◌, arith,
  if◌then◌else◌, length, Bool-cases, false,
}
use ic_kit.Certified.HashTree.{Bytes}
use ic_kit.Stable.Memory.{Memory, IsMemory, Kept}
use ic_kit.Stable.HoleList.{HoleList}
use ic_kit.Stable.HoleList.Invariant.{Apart, IsHoleList, size_at}
use ic_kit.Stable.HoleList.Merge.{Sizes, Free, IsTaken}
use ic_kit.Stable.HoleList.Insert.{Headed}
use ic_kit.Stable.HoleList.Release.{Released}
use ic_kit.Stable.Allocator.Allocate.{Allocated, Available, bytes_of}
use ic_kit.Stable.Allocator.Runs.{World, IsSound}

-- Blocks that are taken are those of which no byte is free.
outside_holes :
    {limit addr size : ℕ} {sizes : Sizes}
    → IsTaken limit addr size sizes
    → (x : ℕ) → addr ≤ x
    → x < addr + size
    → ¬ Free sizes x
outside_holes taken x l u (a, n, e, k, v) = ground (arith, taken.clear a n e)

kept-IsTaken :
    {limit larger addr size : ℕ} {sizes : Sizes}
    → 16 ≤ size
    → addr + size ≤ larger
    → Apart limit sizes
    → ((x : ℕ) → addr ≤ x → x < addr + size → ¬ Free sizes x)
    → IsTaken larger addr size sizes
kept-IsTaken {addr = addr} {size} {sizes} h k apart f = record {
  sized = (h, k);
  clear = λ a n e.
      let s = apart.sized a n e in
      elim (Bool-cases (leb (a + n) addr)) [
        | inl l ↦ inl (ground arith)
        | inr l ↦ elim (Bool-cases (leb (addr + size) a)) [
          | inl u ↦ inr (ground arith)
          | inr u ↦ elim (Bool-cases (ltb a addr)) [
            | inl v ↦
                absurd (f addr (omega arith) (omega arith) (a, n, e, ground arith, ground arith))
            | inr v ↦ absurd (f a (ground arith) (ground arith) (a, n, e, omega arith, omega arith))
          ]
        ]
      ];
}

module _ {M : Type 0} {memory : Memory M} {Good : M → Type 0} (laws : IsMemory memory Good) where
  pub Headed-unique : (addr n k : ℕ) (m : M) → Headed laws addr n m → Headed laws addr k m → n ≡ k
  Headed-unique addr n k m (word, e, f) (word', e', f') = cc

  -- Reading the same, a word stays a header.
  Headed-same :
      (addr n : ℕ) (m o : M)
      → memory.stable_read addr 8 o ≡ memory.stable_read addr 8 m
      → Headed laws addr n m
      → Headed laws addr n o
  Headed-same addr n m o e (word, read, verified) = (word, e ∙ read, verified)

  module _ (w : World M) (sound : IsSound laws w) where
    open sound use {valid, good, taken, disjoint}

    module _ (bytes addr got : ℕ) (list : HoleList) (mem : M)
        (a : Allocated laws bytes addr got w.list w.mem list mem) where
      in_use :
          (b n : ℕ)
          → w.live b ≡ some n
          → (x : ℕ) → b ≤ x
          → x < b + n
          → ¬ Available laws w.list w.mem mem x
      in_use b n e x l u (inl old) = outside_holes (taken b n e).0 x l u old
      in_use b n e x l u (inr (k, _)) = let s = (taken b n e).0.sized in omega arith

      -- The new block overlaps none that is in use.
      new_disjoint : (b n : ℕ) → w.live b ≡ some n → (b + n ≤ addr) ⊎ (addr + got ≤ b)
      new_disjoint b n e =
          let s = (taken b n e).0.sized in
          let t = a.taken.sized in
          elim (Bool-cases (leb (b + n) addr)) [
            | inl l ↦ inl (ground arith)
            | inr l ↦ elim (Bool-cases (leb (addr + got) b)) [
              | inl u ↦ inr (ground arith)
              | inr u ↦ elim (Bool-cases (ltb b addr)) [
                | inl v ↦ absurd (
                    in_use b n e addr (ground arith) (ground arith)
                      (a.was_free addr (omega arith) (omega arith)))
                | inr v ↦ absurd (
                    in_use b n e b (omega arith) (omega arith)
                      (a.was_free b (ground arith) (ground arith)))
              ]
            ]
          ]

      kept_block :
          (b n : ℕ)
          → w.live b ≡ some n
          → IsTaken (bytes_of laws mem) b n (size_at list) × Headed laws b n mem
      kept_block b n e =
          let t = taken b n e in
          let s = t.0.sized in
          let more = a.no_smaller in
          (
            kept-IsTaken s.0 (omega arith) a.valid.apart
                λ x l u f. in_use b n e x l u ((a.now_free x).0 f).0,
            Headed-same b n w.mem mem
                (a.kept b 8 (omega arith) (omega arith)
                  λ x l u. outside_holes t.0 x l (omega arith))
                t.1,
          )

      pub gets-IsSound :
          IsSound laws (record {
            list = list;
            mem = mem;
            live = λ x. if addr == x then some got else w.live x;
          })
      gets-IsSound = record {
        valid = a.valid;
        good = a.good;
        taken = λ b n e. elim (Bool-cases (addr == b)) [
          | inl f ↦
              let here : addr ≡ b = ground arith in
              let size : got ≡ n = ground arith in
              subst (λ c. IsTaken (bytes_of laws mem) c n (size_at list) × Headed laws c n mem) here
                (subst
                  (λ k. IsTaken (bytes_of laws mem) addr k (size_at list) × Headed laws addr k mem)
                  size (a.taken, a.headed))
          | inr f ↦ kept_block b n (ground arith)
        ];
        disjoint = λ b c n k e f l. elim (Bool-cases (addr == b)) [
          | inl g ↦ ground (arith, new_disjoint c k)
          | inr g ↦ elim (Bool-cases (addr == c)) [
            | inl h ↦ ground (arith, new_disjoint b n)
            | inr h ↦ disjoint b c n k (ground arith) (ground arith) l
          ]
        ];
      }

    module _ (addr got : ℕ) (list : HoleList) (mem : M) (there : w.live addr ≡ some got)
        (r : Released laws (bytes_of laws w.mem) addr got w.list w.mem (list, mem)) where
      other_block :
          (b n : ℕ)
          → w.live b ≡ some n
          → (addr == b) ≡ false
          → (x : ℕ) → b ≤ x
          → x < b + n
          → ¬ Free (size_at list) x
      other_block b n e ne x l u f = elim ((r.1 x).0 f) [
        | inl old ↦ outside_holes (taken b n e).0 x l u old
        | inr (k, v) ↦ ground (arith, disjoint b addr n got e there, disjoint addr b got n there e)
      ]

      pub frees-IsSound :
          IsSound laws
            (record { list = list; mem = mem; live = λ x. if addr == x then none else w.live x })
      frees-IsSound =
          let size : bytes_of laws w.mem ≡ bytes_of laws mem = omega (arith, r.3) in
          record {
            valid = subst (λ l. IsHoleList l list) size r.0;
            good = r.2;
            taken = λ b n e.
                let ne : (addr == b) ≡ false = ground arith in
                let old : w.live b ≡ some n = ground arith in
                let t = taken b n old in
                let s = t.0.sized in
                (
                  kept-IsTaken s.0 (omega (arith, size)) r.0.apart (other_block b n old ne),
                  Headed-same b n w.mem mem
                      (r.4 b 8 (omega arith) λ x l u. other_block b n old ne x l (omega arith)) t.1,
                );
            disjoint = λ b c n k e f l. disjoint b c n k (ground arith) (ground arith) l;
          }

    pub writes-IsSound :
        (addr got offset : ℕ) (buf : Bytes) (mem : M)
        → w.live addr ≡ some got
        → addr + 8 ≤ offset
        → offset + length buf ≤ addr + got
        → Kept memory Good offset (length buf) w.mem mem
        → IsSound laws (record w { mem = mem })
    writes-IsSound addr got offset buf mem there low high kept =
        let size : bytes_of laws w.mem ≡ bytes_of laws mem = omega (arith, kept.same_size) in
        record {
          valid = subst (λ l. IsHoleList l w.list) size valid;
          good = kept.good;
          taken = λ b n e.
              let t = taken b n e in
              let s = t.0.sized in
              (
                subst (λ l. IsTaken l b n (size_at w.list)) size t.0,
                Headed-same b n w.mem mem
                    (kept.same b 8 (elim (Bool-cases (addr == b)) [
                      | inl f ↦ inl (ground arith)
                      | inr f ↦ elim (Bool-cases (ltb addr b)) [
                        | inl g ↦ inr (ground (arith, disjoint addr b got n there e))
                        | inr g ↦ inl (ground (arith, disjoint b addr n got e there))
                      ]
                    ]))
                    t.1,
              );
          disjoint = disjoint;
        }
