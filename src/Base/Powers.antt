-- ===== src/Base/Powers.antt =====
-- Powers of two, and conjunction with a mask.
use Prim.Native.Nat.{
  ℕ, zero, suc, ◌+◌, ◌-◌, ◌*◌, ◌/◌, ◌%◌, ◌^◌, ◌≤◌, ◌<◌, min, bit_and, digits, bit_and-bitwise,
}
use native.Mathlib.Nat.{pow-suc, add-zero, add-suc, mul_comm, mul_assoc, zero-add, suc-add}
use mathlib.Core.Path.{◌≡◌, refl, ◌∙◌, sym, ap, subst}
use mathlib.Core.Logic.{◌⊎◌, inl, inr}
use native.Mathlib.Omega.{arith}

mul_pow_suc : (m k : ℕ) → m * 2 ^ suc k ≡ 2 * (m * 2 ^ k)
mul_pow_suc m k =
    ap (λ p. m * p) (pow-suc 2 k) ∙ sym (mul_assoc m (2 ^ k) 2) ∙ mul_comm (m * 2 ^ k) 2

pub pow_add : (k l : ℕ) → 2 ^ (k + l) ≡ 2 ^ k * 2 ^ l
pow_add k zero = omega (arith, ap (λ n. 2 ^ n) (add-zero k))
pow_add k (suc l) =
    omega
      (arith, pow_add k l, ap (λ n. 2 ^ n) (add-suc k l), pow-suc 2 (k + l), mul_pow_suc (2 ^ k) l)

pub pow_pos : (k : ℕ) → 0 < 2 ^ k
pow_pos zero = omega arith
pow_pos (suc k) = omega (arith, pow_pos k, pow-suc 2 k)

pub pow_le : (k l : ℕ) → k ≤ l → 2 ^ k ≤ 2 ^ l
pow_le zero l h = omega (arith, pow_pos l)
pow_le (suc k) zero h = absurd (omega arith)
pow_le (suc k) (suc l) h = omega (arith, pow_le k l (omega arith), pow-suc 2 k, pow-suc 2 l)

-- Conjunction by its lowest digit, from its definition.
same_fuel :
    (n m a b : ℕ) → a ≤ n → a ≤ m → digits (λ _. zero) min n a b ≡ digits (λ _. zero) min m a b
same_fuel zero zero a b p q = refl
same_fuel zero (suc m) zero b p q = refl
same_fuel (suc n) zero zero b p q = refl
same_fuel (suc n) (suc m) zero b p q = refl
same_fuel zero (suc m) (suc a) b p q = absurd (omega arith)
same_fuel (suc n) zero (suc a) b p q = absurd (omega arith)
same_fuel (suc n) (suc m) (suc a) b p q =
    omega (arith, same_fuel n m (suc a / 2) (b / 2) (omega arith) (omega arith))

and_of_zero : (b : ℕ) → bit_and 0 b ≡ 0
and_of_zero b = bit_and-bitwise 0 b

pub bit_and-halves : (a b : ℕ) → bit_and a b ≡ 2 * bit_and (a / 2) (b / 2) + min (a % 2) (b % 2)
bit_and-halves zero b = omega (arith, and_of_zero b, and_of_zero (b / 2))
bit_and-halves (suc a) b =
    let whole = bit_and-bitwise (suc a) b in
    let half = bit_and-bitwise (suc a / 2) (b / 2) in
    omega
      (arith, whole, half, same_fuel a (suc a / 2) (suc a / 2) (b / 2) (omega arith) (omega arith))

and_self_upto : (n a : ℕ) → a ≤ n → bit_and a a ≡ a
and_self_upto n zero h = and_of_zero 0
and_self_upto zero (suc a) h = absurd (omega arith)
and_self_upto (suc n) (suc a) h =
    omega (arith, bit_and-halves (suc a) (suc a), and_self_upto n (suc a / 2) (omega arith))

odd_or_even : (x : ℕ) → (x % 2 ≡ 0) ⊎ (x % 2 ≡ 1)
odd_or_even x = ground arith

and_self : (a : ℕ) → bit_and a a ≡ a
and_self a = and_self_upto a a (omega arith)

and_double : (x m : ℕ) → bit_and x (2 * m) ≡ 2 * bit_and (x / 2) m
and_double x m =
    let e : 2 * m / 2 ≡ m = omega arith in
    omega (arith, bit_and-halves x (2 * m), ap (bit_and (x / 2)) e)

and_shifted : (k m x : ℕ) → bit_and x (m * 2 ^ suc k) ≡ 2 * bit_and (x / 2) (m * 2 ^ k)
and_shifted k m x = ap (bit_and x) (mul_pow_suc m k) ∙ and_double x (m * 2 ^ k)

-- A mask whose ones stand above the number.
pub and_above : (k m x : ℕ) → x < 2 ^ k → bit_and x (m * 2 ^ k) ≡ 0
and_above zero m zero h = and_of_zero (m * 2 ^ zero)
and_above zero m (suc x) h = absurd (omega arith)
and_above (suc k) m x h =
    let ih = and_above k m (x / 2) (omega (arith, pow-suc 2 k)) in
    omega (arith, and_shifted k m x, ih)

-- A mask of ones that the number fits in.
and_ones : (l x : ℕ) → x < 2 ^ l → bit_and x (2 ^ l - 1) ≡ x
and_ones zero zero h = and_of_zero (2 ^ zero - 1)
and_ones zero (suc x) h = absurd (omega arith)
and_ones (suc l) x h =
    let e : (2 ^ suc l - 1) / 2 ≡ 2 ^ l - 1 = omega (arith, pow-suc 2 l, pow_pos l) in
    let ih = and_ones l (x / 2) (omega (arith, pow-suc 2 l)) in
    omega
      (arith, bit_and-halves x (2 ^ suc l - 1), ap (bit_and (x / 2)) e, ih, pow-suc 2 l, pow_pos l)

-- A mask whose `l` ones meet the number's highest.
pub and_meets : (k l x : ℕ) → 2 ^ k ≤ x → x < 2 ^ (k + l) → 0 < bit_and x ((2 ^ l - 1) * 2 ^ k)
and_meets zero l x p q =
    let e : (2 ^ l - 1) * 2 ^ zero ≡ 2 ^ l - 1 = omega arith in
    let f : 2 ^ (zero + l) ≡ 2 ^ l = ap (λ n. 2 ^ n) (zero-add l) in
    omega (arith, ap (bit_and x) e, and_ones l x (omega (arith, f)))
and_meets (suc k) l x p q =
    let f : 2 ^ (suc k + l) ≡ 2 ^ suc (k + l) = ap (λ n. 2 ^ n) (suc-add k l) in
    let ih =
      and_meets k l (x / 2) (omega (arith, pow-suc 2 k)) (omega (arith, f, pow-suc 2 (k + l))) in
    omega (arith, and_shifted k (2 ^ l - 1) x, ih)

-- The test whether a number is a power of two.
pub and_pred :
    (n x : ℕ)
    → 2 ^ n ≤ x
    → x < 2 ^ suc n
    → ((bit_and x (x - 1) ≡ 0) × (x ≡ 2 ^ n)) ⊎ ((0 < bit_and x (x - 1)) × (2 ^ n < x))
and_pred zero x p q =
    let e : x ≡ 1 = omega arith in
    inl (subst (λ y. bit_and y (y - 1) ≡ 0) (sym e) refl, omega arith)
and_pred (suc n) x p q = elim (odd_or_even x) [
  | inl even ↦
      let e : (x - 1) / 2 ≡ x / 2 - 1 = omega (arith, pow_pos n, pow-suc 2 n) in
      let d : x ≡ 2 * (x / 2) = omega arith in
      let s : bit_and x (x - 1) ≡ 2 * bit_and (x / 2) (x / 2 - 1) =
        omega (arith, bit_and-halves x (x - 1), ap (bit_and (x / 2)) e) in
      elim (and_pred n (x / 2) (omega (arith, pow-suc 2 n))
        (omega (arith, pow-suc 2 n, pow-suc 2 (suc n)))) [
          | inl (z, f) ↦ inl (omega (arith, s), omega (arith, pow-suc 2 n))
          | inr (z, f) ↦ inr (omega (arith, s), omega (arith, pow-suc 2 n))
        ]
  | inr odd ↦
      let e : (x - 1) / 2 ≡ x / 2 = omega arith in
      let s = bit_and-halves x (x - 1) in
      inr (
        omega (arith, s, ap (bit_and (x / 2)) e, and_self (x / 2), pow_pos n, pow-suc 2 n),
        omega (arith, pow-suc 2 n),
      )
]
