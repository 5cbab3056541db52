-- ===== src/Base/Bits.antt =====
-- Exclusive or: the bound of its result, at every width.
use Prim.Native.Nat.{digits, differ, bit_xor, bit_xor-bitwise, ℕ, zero, suc, ◌/◌, ◌%◌, ◌^◌, ◌<◌}
use native.Mathlib.Nat.{pow-suc}
use native.Mathlib.Omega.{arith}

differ-lt_two : (x y : ℕ) → x < 2 → y < 2 → differ x y < 2
differ-lt_two zero y p q = q
differ-lt_two (suc x) zero p q = p
differ-lt_two (suc zero) (suc zero) p q = omega arith
differ-lt_two (suc (suc x)) (suc y) p q = absurd (omega arith)
differ-lt_two (suc zero) (suc (suc y)) p q = absurd (omega arith)

digits-lt_pow : (k n a b : ℕ) → a < 2 ^ k → b < 2 ^ k → digits (λ y. y) differ n a b < 2 ^ k
digits-lt_pow k zero a b p q = q
digits-lt_pow k (suc n) zero b p q = q
digits-lt_pow zero (suc n) (suc a) b p q = absurd (omega arith)
digits-lt_pow (suc k) (suc n) (suc a) b p q = omega (
  arith,
  pow-suc 2 k,
  digits-lt_pow k n (suc a / 2) (b / 2) (omega (arith, pow-suc 2 k)) (omega (arith, pow-suc 2 k)),
  differ-lt_two (suc a % 2) (b % 2) (omega arith) (omega arith),
)

pub bit_xor-lt_pow : (k a b : ℕ) → a < 2 ^ k → b < 2 ^ k → bit_xor a b < 2 ^ k
bit_xor-lt_pow k a b p q = omega (arith, bit_xor-bitwise a b, digits-lt_pow k a a b p q)

pub bit_xor-lt_byte : (a b : ℕ) → a < 256 → b < 256 → bit_xor a b < 256
bit_xor-lt_byte a b p q = bit_xor-lt_pow 8 a b p q
