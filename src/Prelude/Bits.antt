-- ===== src/Prelude/Bits.antt =====
-- `|` and `&` where they put bit fields together and take them apart.
use Prim.Native.Nat.{
  ℕ, zero, suc, ◌+◌, ◌*◌, ◌/◌, ◌%◌, ◌^◌, ◌≤◌, ◌<◌, max, bit_and, bit_or, digits, bit_and-bitwise,
  bit_or-bitwise,
}
use mathlib.Core.Path.{◌≡◌, refl}
use native.Mathlib.Nat.{pow-suc}
use native.Mathlib.Omega.{arith}

abbrev or_digits : ℕ → ℕ → ℕ → ℕ
or_digits = digits (λ b. b) max

-- Enough fuel is enough: the digits of `x` are used up.
or_digits_fuel : (k l x y : ℕ) → x ≤ k → x ≤ l → or_digits k x y ≡ or_digits l x y
or_digits_fuel zero zero zero y hk hl = refl
or_digits_fuel zero (suc l) zero y hk hl = refl
or_digits_fuel (suc k) zero zero y hk hl = refl
or_digits_fuel (suc k) (suc l) zero y hk hl = refl
or_digits_fuel (suc k) (suc l) (suc x) y hk hl =
    let halves = or_digits_fuel k l (suc x / 2) (y / 2) (omega arith) (omega arith) in
    omega (arith, halves)
or_digits_fuel zero l (suc x) y hk hl = absurd (omega arith)
or_digits_fuel (suc k) zero (suc x) y hk hl = absurd (omega arith)

zero-bit_or : (b : ℕ) → bit_or 0 b ≡ b
zero-bit_or b = bit_or-bitwise 0 b

bit_or_step : (x y : ℕ) → bit_or x y ≡ bit_or (x / 2) (y / 2) * 2 + max (x % 2) (y % 2)
bit_or_step zero y = omega (arith, zero-bit_or y, zero-bit_or (y / 2))
bit_or_step (suc x) y =
    let same = or_digits_fuel x (suc x / 2) (suc x / 2) (y / 2) (omega arith) (omega arith) in
    omega (arith, same, bit_or-bitwise (suc x) y, bit_or-bitwise (suc x / 2) (y / 2))

bit_or-zero_fuel : (n a : ℕ) → a ≤ n → bit_or a 0 ≡ a
bit_or-zero_fuel n zero h = refl
bit_or-zero_fuel zero (suc a) h = absurd (omega arith)
bit_or-zero_fuel (suc n) (suc a) h =
    omega (arith, bit_or_step (suc a) 0, bit_or-zero_fuel n (suc a / 2) (omega arith))

-- `x << k | y` is a sum, if `y` fits below.
pub bit_or-add : (k x y : ℕ) → y < 2 ^ k → bit_or (x * 2 ^ k) y ≡ x * 2 ^ k + y
bit_or-add zero x zero h = omega (arith, bit_or-zero_fuel (x * 1) (x * 1) (omega arith))
bit_or-add zero x (suc y) h = absurd (omega arith)
bit_or-add (suc k) x y h =
    let p : 2 ^ suc k ≡ 2 ^ k * 2 = pow-suc 2 k in
    let half : x * 2 ^ suc k / 2 ≡ x * 2 ^ k = rw p (omega arith) in
    let even : x * 2 ^ suc k ≡ 2 * (x * 2 ^ k) = rw p (omega arith) in
    let high : bit_or (x * 2 ^ suc k / 2) (y / 2) ≡ x * 2 ^ k + y / 2 =
      rw half (bit_or-add k x (y / 2) (omega (arith, p))) in
    omega (arith, bit_or_step (x * 2 ^ suc k) y, high, even)

pub bit_and-low_six : (x : ℕ) → bit_and 63 x ≡ x % 64
bit_and-low_six x = omega (arith, bit_and-bitwise 63 x)
