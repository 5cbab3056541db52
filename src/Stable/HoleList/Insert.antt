-- ===== src/Stable/HoleList/Insert.antt =====
-- `raw_insert` and `insert` of hole.rs.
use ic_kit.Base.{
  ℕ, ◌+◌, ◌*◌, ◌^◌, ◌≤◌, ◌<◌, ◌≡◌, refl, ap, subst, ◌∙◌, true, false, Option, none, some, ◌++◌, ltb,
  arith, Returns, Returns-imp, Returns-bind, length, length-append,
}
use ic_kit.Certified.HashTree.{Bytes}
use ic_kit.Runtime.Canister.Guard.{to_le_bytes}
use ic_kit.Stable.Memory.{Memory, IsMemory, Kept}
use ic_kit.Stable.Checksum.{seal, verify}
use ic_kit.Stable.Checksum.Laws.{verify-seal}
use ic_kit.Stable.HoleList.{HoleList, root}
use ic_kit.Stable.HoleList.Index.{get_log2_index}
use ic_kit.Stable.HoleList.Blocks.{to_header, from_bytes, raw_insert}
use ic_kit.Stable.HoleList.Invariant.{IsHoleList, size_at}
use ic_kit.Stable.HoleList.Link.{Fresh, Added, inside, link_hole-Added}

from_bytes-to_le_bytes : (n : ℕ) → n < 2 ^ 64 → from_bytes (to_le_bytes 8 n) ≡ n
unfolding from_bytes to_le_bytes
from_bytes-to_le_bytes n h = omega arith

length-to_le_bytes : (n : ℕ) → length (to_le_bytes 8 n) ≡ 8
unfolding to_le_bytes
length-to_le_bytes n = refl

-- A header: 16 bytes, of which the first 8 verify to the size.
abbrev pub IsHeader : ℕ → Bytes → Type 0
IsHeader size header =
    (xs : Bytes) × (ys : Bytes) × (header ≡ xs ++ ys)
    × (length xs ≡ 8)
    × (length ys ≡ 8)
    × (verify (from_bytes xs) ≡ some size)

pub to_header-IsHeader :
    (size : ℕ) (next : Option ℕ)
    → 0 < size
    → size < 2 ^ 40
    → Returns (IsHeader size) (to_header size next)
unfolding to_header
to_header-IsHeader size next p q =
    Returns-bind _ _ (seal size) _ (verify-seal size p q) λ word (bound, verified, same). (
      to_le_bytes 8 word,
      _,
      refl,
      length-to_le_bytes word,
      length-to_le_bytes (elim next [ none ↦ 0 | some addr ↦ addr ]),
      rw (from_bytes-to_le_bytes word bound) verified,
    )

module _ {M : Type 0} {memory : Memory M} {Good : M → Type 0} (laws : IsMemory memory Good) where
  -- The word at an address verifies to a size.
  abbrev pub Headed : ℕ → ℕ → M → Type 0
  Headed addr size m =
      (word : Bytes) × (memory.stable_read addr 8 m ≡ some word)
      × (verify (from_bytes word) ≡ some size)

  -- A header is written where the memory has room for it, and read back.
  pub write_header :
      (addr size : ℕ) (header : Bytes) (m : M)
      → Good m
      → IsHeader size header
      → addr + 16 ≤ memory.stable_size m * 2 ^ 16
      → Returns
          (λ n. Kept memory Good addr 16 m n × Headed addr size n)
          (memory.stable_write addr header m)
  write_header addr size header m good (xs, ys, e, k, l, v) room =
      let total : length header ≡ 16 = ap length e ∙ length-append xs ys ∙ omega arith in
      Returns-imp
        (λ n.
          Kept memory Good addr (length header) m n
          × (memory.stable_read addr (length header) n ≡ some header))
        (λ n. Kept memory Good addr 16 m n × Headed addr size n) _
        (laws.write addr header m good (omega arith))
        λ n (kept, back). (
          subst (λ k. Kept memory Good addr k m n) total kept,
          (
            xs,
            subst (λ k. memory.stable_read addr k n ≡ some xs) k
                (laws.read_prefix addr xs ys n (
                  subst (λ k. memory.stable_read addr k n ≡ some (xs ++ ys)) (omega arith)
                    (back ∙ ap some e))),
            v,
          ),
        )

  -- The list and the memory after a block has become a hole.
  abbrev pub Inserted : ℕ → ℕ → ℕ → HoleList → M → HoleList × M → Type 0
  Inserted limit addr size list m (after, n) =
      Added limit addr size list after × Kept memory Good addr size m n

  pub raw_insert-Inserted :
      {limit : ℕ} {list : HoleList} (valid : IsHoleList limit list) (addr size : ℕ) (m : M)
      → Fresh limit addr size (size_at list)
      → Good m
      → limit ≤ memory.stable_size m * 2 ^ 16
      → Returns (Inserted limit addr size list m) (raw_insert memory addr size false list m)
  unfolding raw_insert root
  raw_insert-Inserted {limit} {list} valid addr size m fresh good room =
      let checked : ltb (get_log2_index size) 36 ≡ true =
        let i = inside valid addr size fresh in ground arith in
      let s = fresh.sized in
      let l = valid.limit_le in
      rw checked (
        Returns-bind (IsHeader size) _ _ _
          (to_header-IsHeader size (list.roots (get_log2_index size)) (omega arith) (omega arith))
          λ header h.
            Returns-bind (Added limit addr size list) _ _ _ (link_hole-Added valid addr size fresh)
              λ after added.
                Returns-bind (λ n. Kept memory Good addr 16 m n × Headed addr size n) _ _ _
                  (write_header addr size header m good h (omega arith))
                  λ n (kept, back). (
                    added,
                    record {
                      good = kept.good;
                      same_size = kept.same_size;
                      same = λ o k d. kept.same o k (ground arith);
                    },
                  ))
