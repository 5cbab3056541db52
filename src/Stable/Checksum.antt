-- ===== src/Stable/Checksum.antt =====
-- ic-kit-stable/src/core/checksum.rs: a number of 40 bits with a checksum in the upper 24 bits of its
-- 64. Fields of a word are read by division and remainder: `(value & 0xff00) >> 8` is
-- `value / 2 ^ 8 % 256`, and words whose bits are apart are joined by `+`.
pub mod Laws
use Prim.Native.Nat.{bit_xor}
use ic_kit.Base.{
  ℕ, ◌+◌, ◌*◌, ◌/◌, ◌%◌, ◌^◌, ◌≤◌, ◌<◌, ◌≡◌, refl, Bool, true, false, ◌&&◌, ◌||◌, Option, none,
  some, leb, ltb, ◌==◌, if◌then◌else◌, arith,
}

-- Byte `i` of a word, from the least.
abbrev pub byte : ℕ → ℕ → ℕ
byte i value = value / 256 ^ i % 256

-- `CheckedU40::new`; `none` is one of the two panics.
unfoldable pub seal : ℕ → Option ℕ
seal value =
    if leb (2 ^ 40) value
    then none
    else if value == 0
    then none
    else let x = bit_xor (bit_xor (byte 4 value) (byte 3 value)) (byte 2 value) in
      let y = bit_xor (bit_xor (byte 2 value) (byte 1 value)) (byte 0 value) in
      let z = bit_xor x y in let s = x * 2 ^ 16 + y * 2 ^ 8 + z in some (s * 2 ^ 40 + value)

-- `CheckedU40::verify` of the word that is stored.
unfoldable pub verify : ℕ → Option ℕ
verify value =
    let xx = bit_xor (bit_xor (byte 4 value) (byte 3 value)) (byte 2 value) in
    let yy = bit_xor (bit_xor (byte 2 value) (byte 1 value)) (byte 0 value) in
    let zz = bit_xor (byte 7 value) (byte 6 value) in
    if value == 0
    then none
    else if xx == byte 7 value && yy == byte 6 value && zz == byte 5 value
    then some (value % 2 ^ 40)
    else none

unfoldable pub unchecked : ℕ → ℕ
unchecked value = value % 2 ^ 40
