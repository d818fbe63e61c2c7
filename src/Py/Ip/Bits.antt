-- ===== src/Py/Ip/Bits.antt =====
-- `|` of a number whose low bits are zero and a number below them is their sum.
use Prim.Native.Nat.{max, bit_or, digits, bit_or-bitwise}
use native.Mathlib.Nat.{pow-suc, div-add-mod, mul_assoc, mul_comm}
use network_renderer_contain.Prelude.{
  ℕ, zero, suc, ◌+◌, ◌*◌, ◌/◌, ◌%◌, ◌^◌, ◌≤◌, ◌<◌, ◌≡◌, refl, ap, ◌∙◌, arith,
}

abbrev or_digits : ℕ → ℕ → ℕ → ℕ
or_digits n a b = digits (λ b. b) max n a b

or_digits_fuel : (n m a b : ℕ) → a ≤ n → a ≤ m → or_digits n a b ≡ or_digits m a b
or_digits_fuel zero zero a b p q = refl
or_digits_fuel zero (suc m) zero b p q = refl
or_digits_fuel zero (suc m) (suc a) b p q = absurd (omega arith)
or_digits_fuel (suc n) zero zero b p q = refl
or_digits_fuel (suc n) zero (suc a) b p q = absurd (omega arith)
or_digits_fuel (suc n) (suc m) zero b p q = refl
or_digits_fuel (suc n) (suc m) (suc a) b p q =
    omega (arith, or_digits_fuel n m (suc a / 2) (b / 2) (omega arith) (omega arith))

zero-bit_or : (b : ℕ) → bit_or 0 b ≡ b
zero-bit_or b = bit_or-bitwise 0 b

bit_or_step : (a b : ℕ) → bit_or a b ≡ bit_or (a / 2) (b / 2) * 2 + max (a % 2) (b % 2)
bit_or_step zero b = omega (arith, zero-bit_or b, zero-bit_or (b / 2))
bit_or_step (suc a) b = omega (
  arith,
  bit_or-bitwise (suc a) b,
  bit_or-bitwise (suc a / 2) (b / 2),
  or_digits_fuel a (suc a / 2) (suc a / 2) (b / 2) (omega arith) (omega arith),
)

bit_or-zero_fuel : (n a : ℕ) → a ≤ n → bit_or a 0 ≡ a
bit_or-zero_fuel n zero h = zero-bit_or 0
bit_or-zero_fuel zero (suc a) h = absurd (omega arith)
bit_or-zero_fuel (suc n) (suc a) h =
    omega (arith, bit_or_step (suc a) 0, bit_or-zero_fuel n (suc a / 2) (omega arith))

-- The multiple is written out, so that halving it is arithmetic.
bit_or-mul_pow : (k q y : ℕ) → y < 2 ^ k → bit_or (q * 2 ^ k) y ≡ q * 2 ^ k + y
bit_or-mul_pow zero q y h =
    let none_left : y ≡ 0 = omega arith in
    rw none_left (bit_or-zero_fuel (q * 1) (q * 1) (omega arith) ∙ omega arith)
bit_or-mul_pow (suc k) q y h =
    let half : q * 2 ^ suc k ≡ q * 2 ^ k * 2 = grind (arith, pow-suc 2 k, mul_assoc) in
    let small : y / 2 < 2 ^ k = omega (arith, pow-suc 2 k) in
    let down : q * 2 ^ k * 2 / 2 ≡ q * 2 ^ k = omega arith in
    let even : q * 2 ^ k * 2 % 2 ≡ 0 = omega arith in
    rw half (
      omega (
        arith,
        bit_or_step (q * 2 ^ k * 2) y,
        ap (λ t. bit_or t (y / 2)) down,
        bit_or-mul_pow k q (y / 2) small,
      ))

pub bit_or_of_aligned : (k x y : ℕ) → x % 2 ^ k ≡ 0 → y < 2 ^ k → bit_or x y ≡ x + y
bit_or_of_aligned k x y al lt =
    let whole : x ≡ x / 2 ^ k * 2 ^ k = grind (arith, div-add-mod x (2 ^ k), mul_comm) in
    rw whole (bit_or-mul_pow k (x / 2 ^ k) y lt)
