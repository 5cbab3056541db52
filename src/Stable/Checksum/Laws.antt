-- ===== src/Stable/Checksum/Laws.antt =====
-- `CheckedU40`: what is sealed verifies, and what is refused.
use Prim.Native.Nat.{bit_xor}
use ic_kit.Base.{ℕ, ◌+◌, ◌*◌, ◌%◌, ◌^◌, ◌≤◌, ◌<◌, ◌≡◌, true, false, some, leb, ◌==◌, arith, Returns}
use ic_kit.Base.Bits.{bit_xor-lt_byte}
use ic_kit.Stable.Checksum.{byte, seal, verify, unchecked}

-- The fields of a word whose parts are apart.
abbrev word : ℕ → ℕ → ℕ → ℕ → ℕ
word x y z value = (x * 2 ^ 16 + y * 2 ^ 8 + z) * 2 ^ 40 + value

record Fields (x y z value w : ℕ) : Type 0 where
  low : w % 2 ^ 40 ≡ value
  byte0 : byte 0 w ≡ byte 0 value
  byte1 : byte 1 w ≡ byte 1 value
  byte2 : byte 2 w ≡ byte 2 value
  byte3 : byte 3 w ≡ byte 3 value
  byte4 : byte 4 w ≡ byte 4 value
  byte5 : byte 5 w ≡ z
  byte6 : byte 6 w ≡ y
  byte7 : byte 7 w ≡ x
  bound : w < 2 ^ 64
  positive : value ≤ w

word-Fields :
    (x y z value : ℕ)
    → x < 256
    → y < 256
    → z < 256
    → value < 2 ^ 40
    → Fields x y z value (word x y z value)
word-Fields x y z value hx hy hz hv = omega arith

-- The three checksums of a number.
abbrev fold_high : ℕ → ℕ
fold_high value = bit_xor (bit_xor (byte 4 value) (byte 3 value)) (byte 2 value)

abbrev fold_low : ℕ → ℕ
fold_low value = bit_xor (bit_xor (byte 2 value) (byte 1 value)) (byte 0 value)

fold-lt : (a b c : ℕ) → a < 256 → b < 256 → c < 256 → bit_xor (bit_xor a b) c < 256
fold-lt a b c p q r = bit_xor-lt_byte (bit_xor a b) c (bit_xor-lt_byte a b p q) r

seal-Fields :
    (value : ℕ)
    → value < 2 ^ 40
    → let x = fold_high value in
      let y = fold_low value in Fields x y (bit_xor x y) value (word x y (bit_xor x y) value)
seal-Fields value h =
    let x = fold_high value in
    let y = fold_low value in
    let hx =
      fold-lt (byte 4 value) (byte 3 value) (byte 2 value) (omega arith) (omega arith)
        (omega arith) in
    let hy =
      fold-lt (byte 2 value) (byte 1 value) (byte 0 value) (omega arith) (omega arith)
        (omega arith) in
    word-Fields x y (bit_xor x y) value hx hy (bit_xor-lt_byte x y hx hy) h

nonzero : (n : ℕ) → 0 < n → (n == 0) ≡ false
nonzero n h = ground arith

same : (n : ℕ) → (n == n) ≡ true
same n = ground arith

within : (n : ℕ) → n < 2 ^ 40 → leb (2 ^ 40) n ≡ false
within n h = ground arith

verify-word :
    (value w : ℕ)
    → 0 < value
    → Fields (fold_high value) (fold_low value) (bit_xor (fold_high value) (fold_low value)) value w
    → verify w ≡ some value
unfolding verify
verify-word value w pos f =
    rw (f.byte7, f.byte6, f.byte5, f.byte4, f.byte3, f.byte2, f.byte1, f.byte0, f.low)
      (simp (nonzero w (omega (arith, f.positive)), same))

seal-word :
    (value : ℕ)
    → 0 < value
    → value < 2 ^ 40
    → seal value
      ≡ some (
          word
            (fold_high value)
            (fold_low value)
            (bit_xor (fold_high value) (fold_low value))
            value)
unfolding seal
seal-word value pos h = simp (within value h, nonzero value pos)

-- A number of 40 bits other than zero is sealed into a word of 64 bits, which verifies to the number
-- and yields it unchecked too.
pub verify-seal :
    (value : ℕ)
    → 0 < value
    → value < 2 ^ 40
    → Returns (λ w. (w < 2 ^ 64) × (verify w ≡ some value) × (unchecked w ≡ value)) (seal value)
unfolding unchecked
verify-seal value pos h =
    let f = seal-Fields value h in
    rw (seal-word value pos h, Returns) (f.bound, verify-word value _ pos f, f.low)
