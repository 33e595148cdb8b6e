-- ===== src/Common/Bits.antt =====
-- The lowest bit of a word, under `&` and `|`.
use Prim.Native.Nat.{
  ℕ, zero, suc, ◌+◌, ◌*◌, ◌/◌, ◌%◌, ◌≤◌, min, max, digits, bit_and, bit_or, bit_and-bitwise,
  bit_or-bitwise,
}
use mathlib.Core.Path.{◌≡◌, refl}
use native.Mathlib.Omega.{arith}

no_digits : (n a : ℕ) → digits (λ b. 0) min n a 0 ≡ 0
no_digits zero a = refl
no_digits (suc n) zero = refl
no_digits (suc n) (suc a) = omega (arith, no_digits n (suc a / 2))

own_digits : (n a : ℕ) → a ≤ n → digits (λ b. b) max n a 0 ≡ a
own_digits zero a h = omega arith
own_digits (suc n) zero h = refl
own_digits (suc n) (suc a) h = omega (arith, own_digits n (suc a / 2) (omega arith))

pub bit_and-one : (a : ℕ) → bit_and a 1 ≡ a % 2
bit_and-one zero = refl
bit_and-one (suc a) = simp bit_and-bitwise (omega (arith, no_digits a (suc a / 2)))

pub bit_or-one : (a : ℕ) → bit_or a 1 ≡ a / 2 * 2 + 1
bit_or-one zero = refl
bit_or-one (suc a) = simp bit_or-bitwise (omega (arith, own_digits a (suc a / 2) (omega arith)))

one_digits : (n a : ℕ) → a ≤ n → digits (λ b. b) max n a 1 ≡ a / 2 * 2 + 1
one_digits zero a h = omega arith
one_digits (suc n) zero h = refl
one_digits (suc n) (suc a) h = omega (arith, own_digits n (suc a / 2) (omega arith))

two_digits : (n a : ℕ) → a ≤ n → digits (λ b. b) max n a 2 ≡ a / 4 * 4 + 2 + a % 2
two_digits zero a h = omega arith
two_digits (suc n) zero h = refl
two_digits (suc n) (suc a) h = omega (arith, one_digits n (suc a / 2) (omega arith))

pub bit_or-four : (a : ℕ) → bit_or a 4 ≡ a / 8 * 8 + 4 + a % 4
bit_or-four zero = refl
bit_or-four (suc a) = simp bit_or-bitwise (omega (arith, two_digits a (suc a / 2) (omega arith)))
