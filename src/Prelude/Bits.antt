-- ===== src/Prelude/Bits.antt =====
-- `^` and `|` of Ruby integers: when the result is zero.
use Prim.Native.Nat.{
  ℕ, zero, suc, ◌/◌, ◌%◌, ◌≤◌, max, bit_or, bit_xor, digits, differ, bit_or-bitwise,
  bit_xor-bitwise,
}
use mathlib.Core.Path.{◌≡◌, refl, sym, ◌∙◌}
use mathlib.Core.Logic.{◌↔◌}
use native.Mathlib.Omega.{arith}

differ-eq_zero : (x y : ℕ) → differ x y ≡ 0 → x ≡ y
differ-eq_zero zero y h = omega arith
differ-eq_zero (suc x) zero h = h
differ-eq_zero (suc x) (suc y) h = omega (arith, differ-eq_zero x y h)

differ_self : (x : ℕ) → differ x x ≡ 0
differ_self zero = refl
differ_self (suc x) = differ_self x

xor_digits_zero : (n a b : ℕ) → a ≤ n → digits (λ b'. b') differ n a b ≡ 0 → a ≡ b
xor_digits_zero zero zero b p h = sym h
xor_digits_zero zero (suc a) b p h = absurd (omega arith)
xor_digits_zero (suc n) zero b p h = sym h
xor_digits_zero (suc n) (suc a) b p h =
    let low : differ (suc a % 2) (b % 2) ≡ 0 = omega arith in
    let high : digits (λ b'. b') differ n (suc a / 2) (b / 2) ≡ 0 = omega arith in
    omega (
      arith,
      differ-eq_zero (suc a % 2) (b % 2) low,
      xor_digits_zero n (suc a / 2) (b / 2) (omega arith) high,
    )

xor_digits_self : (n a : ℕ) → a ≤ n → digits (λ b'. b') differ n a a ≡ 0
xor_digits_self zero a p = omega arith
xor_digits_self (suc n) zero p = refl
xor_digits_self (suc n) (suc a) p =
    omega (arith, differ_self (suc a % 2), xor_digits_self n (suc a / 2) (omega arith))

or_digits_zero : (n a b : ℕ) → a ≤ n → digits (λ b'. b') max n a b ≡ 0 → (a ≡ 0) × (b ≡ 0)
or_digits_zero zero a b p h = (omega arith, h)
or_digits_zero (suc n) zero b p h = (refl, h)
or_digits_zero (suc n) (suc a) b p h =
    let high : digits (λ b'. b') max n (suc a / 2) (b / 2) ≡ 0 = omega arith in
    let (a0, b0) = or_digits_zero n (suc a / 2) (b / 2) (omega arith) high in
    (omega arith, omega arith)

pub bit_xor-eq_zero : (a b : ℕ) → (bit_xor a b ≡ 0) ↔ (a ≡ b)
bit_xor-eq_zero a b = (
  λ h. xor_digits_zero a a b (omega arith) (sym (bit_xor-bitwise a b) ∙ h),
  λ h. rw (← h) (bit_xor-bitwise a a ∙ xor_digits_self a a (omega arith)),
)

pub bit_or-eq_zero : (a b : ℕ) → bit_or a b ≡ 0 → (a ≡ 0) × (b ≡ 0)
bit_or-eq_zero a b h = or_digits_zero a a b (omega arith) (sym (bit_or-bitwise a b) ∙ h)
