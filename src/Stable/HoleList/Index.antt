-- ===== src/Stable/HoleList/Index.antt =====
-- ic-kit-stable/src/core/hole.rs: which of the linked lists a hole of a given size stands in.
use Prim.Native.Nat.{bit_and}
use ic_kit.Base.{
  ℕ, suc, ◌+◌, ◌-◌, ◌*◌, ◌/◌, ◌%◌, ◌^◌, ◌≤◌, ◌<◌, ◌≡◌, refl, ap, ◌∙◌, subst, true, false, List, [],
  ◌∷◌, ◌↔◌, inl, inr, ltb, ◌==◌, if◌then◌else◌, arith, Bool-cases,
}
use ic_kit.Base.Powers.{pow_add, pow_pos, pow_le, and_above, and_meets, and_pred}
use native.Mathlib.Nat.{pow-suc, suc-add, lt_of_not-le, le-div_iff_mul-le}

-- The loop of `ceiling_log2` over the masks: `j` is the shift that goes with the next mask.
unfoldable pub log2_loop : List ℕ → ℕ → ℕ → ℕ → ℕ
log2_loop [] j x y = y
log2_loop (mask ∷ masks) j x y =
    let k = if bit_and x mask == 0 then 0 else j in log2_loop masks (j / 2) (x / 2 ^ k) (y + k)

unfoldable pub ceiling_log2 : ℕ → ℕ
unfolding log2_loop
ceiling_log2 x =
    log2_loop (0xFFFFFFFF00000000 ∷ 0x00000000FFFF0000 ∷ 0xFF00 ∷ 0xF0 ∷ 0xC ∷ 0x2 ∷ []) 32 x
      (if bit_and x (x - 1) == 0 then 0 else 1)

-- The difference wraps around below the smallest allocation, of 16 bytes.
unfoldable pub get_log2_index : ℕ → ℕ
unfolding ceiling_log2
get_log2_index size = (ceiling_log2 size + 2 ^ 64 - ceiling_log2 16) % 2 ^ 64

-- The number of the highest binary digit of `x`.
abbrev Floors : ℕ → ℕ → Type 0
Floors x f = (2 ^ f ≤ x) × (x < 2 ^ suc f)

-- What the rest of the loop makes of `x` and `y`.
abbrev Ends : ℕ → ℕ → ℕ → Type 0
Ends x y r = (f : ℕ) × (r ≡ y + f) × Floors x f

last : (x y : ℕ) → 1 ≤ x → x < 2 ^ 1 → Ends x y (log2_loop [] 0 x y)
unfolding log2_loop
last x y p q = (0, omega arith, (omega arith, omega arith))

-- The quotient by a power of two.
Floors-div : (l x f : ℕ) → Floors (x / 2 ^ l) f → Floors x (f + l)
Floors-div l x f (p, q) =
    let a = (le-div_iff_mul-le {k = 2 ^ l} {x = 2 ^ f} {y = x} (pow_pos l)).0 p in
    let e : 2 ^ (suc f + l) ≡ 2 ^ suc (f + l) = ap (λ n. 2 ^ n) (suc-add f l) in
    (
      omega (arith, a, pow_add f l),
      lt_of_not-le λ h. absurd (
          omega (
            arith,
            (le-div_iff_mul-le {k = 2 ^ l} {x = 2 ^ suc f} {y = x} (pow_pos l)).1
                (omega (arith, h, e, pow_add (suc f) l)),
            q,
          )),
    )

-- A round of the loop with the mask of the digits from `l` up to `l + l`.
round :
    (l mask : ℕ) (masks : List ℕ)
    → mask ≡ (2 ^ l - 1) * 2 ^ l
    → ((x y : ℕ) → 1 ≤ x → x < 2 ^ l → Ends x y (log2_loop masks (l / 2) x y))
    → (x y : ℕ) → 1 ≤ x
    → x < 2 ^ (l + l)
    → Ends x y (log2_loop (mask ∷ masks) l x y)
unfolding log2_loop
round l mask masks e rest x y p q = elim (Bool-cases (ltb x (2 ^ l))) [
  | inl low ↦
      let m : bit_and x mask ≡ 0 = ap (bit_and x) e ∙ and_above l (2 ^ l - 1) x (ground arith) in
      let t : (bit_and x mask == 0) ≡ true = ground arith in
      rw t (
        subst (λ z. Ends x y (log2_loop masks (l / 2) z (y + 0)))
          (let z : x ≡ x / 2 ^ 0 = omega arith in z)
          (subst (λ z. Ends x y (log2_loop masks (l / 2) x z))
            (let z : y ≡ y + 0 = omega arith in z) (rest x y p (ground arith))))
  | inr high ↦
      let big : 2 ^ l ≤ x = ground arith in
      let m = and_meets l l x big q in
      let t : (bit_and x mask == 0) ≡ false = let f = ap (bit_and x) e in ground arith in
      let below : x / 2 ^ l < 2 ^ l = lt_of_not-le λ h. absurd (
        omega (
          arith,
          (le-div_iff_mul-le {k = 2 ^ l} {x = 2 ^ l} {y = x} (pow_pos l)).0 h,
          pow_add l l,
          q,
        )) in
      let above : 1 ≤ x / 2 ^ l =
        (le-div_iff_mul-le {k = 2 ^ l} {x = 1} {y = x} (pow_pos l)).1 (omega (arith, big)) in
      let r = rest (x / 2 ^ l) (y + l) above below in
      rw t (r.0 + l, omega (arith, r.1), Floors-div l x r.0 r.2)
]

-- The whole loop.
loop-Ends :
    (x y : ℕ)
    → 1 ≤ x
    → x < 2 ^ 64
    → Ends x y (
        log2_loop (0xFFFFFFFF00000000 ∷ 0x00000000FFFF0000 ∷ 0xFF00 ∷ 0xF0 ∷ 0xC ∷ 0x2 ∷ []) 32 x y)
loop-Ends = round 32 _ _ refl (
    round 16 _ _ refl
      (round 8 _ _ refl (round 4 _ _ refl (round 2 _ _ refl (round 1 _ _ refl last)))))

-- `r` is the least exponent whose power of two reaches `x`.
abbrev pub Reaches : ℕ → ℕ → Type 0
Reaches x r = (x ≤ 2 ^ r) × ((d : ℕ) → x ≤ 2 ^ d → r ≤ d)

Ends-Reaches : (x r : ℕ) → Ends x (if bit_and x (x - 1) == 0 then 0 else 1) r → Reaches x r
Ends-Reaches x r (f, e, (low, high)) = elim (and_pred f x low high) [
  | inl (z, is) ↦
      let same : r ≡ f = ground arith in
      (
        omega (arith, ap (λ n. 2 ^ n) same),
        λ d h.
            let z : r < suc d =
              lt_of_not-le λ l.
                absurd (omega (arith, pow_le (suc d) f (omega arith), pow-suc 2 d, pow_pos d)) in
            omega arith,
      )
  | inr (z, above) ↦
      let next : r ≡ suc f = ground arith in
      (
        omega (arith, ap (λ n. 2 ^ n) next),
        λ d h.
            let z : r < suc d =
              lt_of_not-le λ l. absurd (omega (arith, pow_le d f (omega arith))) in
            omega arith,
      )
]

pub ceiling_log2-Reaches : (x : ℕ) → 0 < x → x < 2 ^ 64 → Reaches x (ceiling_log2 x)
unfolding ceiling_log2
ceiling_log2-Reaches x p q =
    Ends-Reaches x _ (loop-Ends x (if bit_and x (x - 1) == 0 then 0 else 1) p q)

pub ceiling_log2_mono : (x y : ℕ) → 0 < x → x ≤ y → y < 2 ^ 64 → ceiling_log2 x ≤ ceiling_log2 y
ceiling_log2_mono x y p h q =
    let a = (ceiling_log2-Reaches y (omega arith) q).0 in
    (ceiling_log2-Reaches x p (omega arith)).1 (ceiling_log2 y) (omega (arith, a))

log2_of_min : ceiling_log2 16 ≡ 4
unfolding ceiling_log2 log2_loop
log2_of_min = refl

-- From 16 bytes on the difference is exact.
index_exact :
    (size : ℕ)
    → 16 ≤ size
    → size < 2 ^ 64
    → (4 ≤ ceiling_log2 size) × (get_log2_index size + 4 ≡ ceiling_log2 size)
unfolding get_log2_index
index_exact size p q =
    let low = ceiling_log2_mono 16 size (omega arith) p q in
    let high = (ceiling_log2-Reaches size (omega arith) q).1 64 (omega arith) in
    let least : 4 ≤ ceiling_log2 size = omega (arith, log2_of_min, low) in
    (least, omega (arith, log2_of_min, least, high))

-- For a size from 16 to below 2 ^ 64 bytes, the index is the least `i` such that the size is at most
-- 2 ^ (i + 4); it is that of one of the 36 lists just if the size is at most 2 ^ 39.
pub get_log2_index-least :
    (size : ℕ)
    → 16 ≤ size
    → size < 2 ^ 64
    → (size ≤ 2 ^ (get_log2_index size + 4))
      × ((i : ℕ) → size ≤ 2 ^ (i + 4) → get_log2_index size ≤ i)
      × ((get_log2_index size < 36) ↔ (size ≤ 2 ^ 39))
get_log2_index-least size p q =
    let least = ceiling_log2-Reaches size (omega arith) q in
    let (low, e) = index_exact size p q in
    (
      omega (arith, least.0, ap (λ n. 2 ^ n) e),
      λ i h. omega (arith, least.1 (i + 4) h, e),
      (
        λ h. omega (arith, least.0, pow_le (ceiling_log2 size) 39 (omega (arith, e, h))),
        λ h. omega (arith, e, least.1 39 h),
      ),
    )

pub get_log2_index_mono :
    (a b : ℕ) → 16 ≤ a → a ≤ b → b < 2 ^ 64 → get_log2_index a ≤ get_log2_index b
get_log2_index_mono a b p h q =
    let (_, d) = index_exact a p (omega arith) in
    let (_, e) = index_exact b (omega arith) q in
    omega (arith, d, e, ceiling_log2_mono a b (omega arith) h q)
