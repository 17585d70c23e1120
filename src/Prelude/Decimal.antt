-- ===== src/Prelude/Decimal.antt =====
-- The digits of a number, read back.
use Prim.Native.Nat.{ℕ, zero, suc, ◌+◌, ◌-◌, ◌*◌, ◌/◌, ◌%◌, ◌<◌}
use mathlib.Core.Path.{◌≡◌, refl, ◌∙◌, ap}
use mathlib.Core.Bool.{Bool, true, false, ◌&&◌}
use mathlib.Core.Logic.{inl, inr}
use mathlib.Core.List.{[], ◌∷◌, ◌++◌}
use native.Mathlib.Omega.{arith}
use oauth.Prelude.Tests.{Bytes, ltb, leb, if◌then◌else◌, Bool-cases}
use oauth.Prelude.Ascii.{decimal_from, decimal}

unfoldable pub is_digit : ℕ → Bool
is_digit c = leb b'0' c && leb c b'9'

-- The number in front of a text, behind the digits that have been read.
unfoldable pub digits_value : ℕ → Bytes → ℕ
unfolding is_digit
digits_value n [] = n
digits_value n (c ∷ s) =
    let more = digits_value (n * 10 + (c - b'0')) s in if is_digit c then more else n

-- The text does not begin with a digit.
abbrev pub NoDigit : Bytes → Type 0
NoDigit [] = Unit
NoDigit (c ∷ s) = is_digit c ≡ false

abbrev pub Digit : Bytes → Type 0
Digit [] = ⊥
Digit (c ∷ s) = is_digit c ≡ true

is_digit-mod : (n : ℕ) → is_digit (b'0' + n % 10) ≡ true
unfolding is_digit
is_digit-mod n = ground arith

digits_value-digit :
    (n m : ℕ) (s : Bytes) → digits_value m ((b'0' + n % 10) ∷ s) ≡ digits_value (m * 10 + n % 10) s
unfolding digits_value
digits_value-digit n m s =
    let read : b'0' + n % 10 - b'0' ≡ n % 10 = omega arith in rw (is_digit-mod n, read) refl

digits_value-decimal_from :
    (k n : ℕ) (out : Bytes) → n < k → digits_value 0 (decimal_from k n out) ≡ digits_value n out
unfolding decimal_from
digits_value-decimal_from zero n out h = absurd (omega arith)
digits_value-decimal_from (suc k) n out h =
    let digit = b'0' + n % 10 in
    elim (Bool-cases (ltb n 10)) [
      | inl small ↦
          let whole : 0 * 10 + n % 10 ≡ n = ground arith in
          rw small (digits_value-digit n 0 out ∙ ap (λ m. digits_value m out) whole)
      | inr large ↦
          let fewer : n / 10 < k = ground arith in
          let whole : n / 10 * 10 + n % 10 ≡ n = omega arith in
          rw large (
            digits_value-decimal_from k (n / 10) (digit ∷ out) fewer
            ∙ digits_value-digit n (n / 10) out
            ∙ ap (λ m. digits_value m out) whole)
    ]

decimal_from-Digit : (k n : ℕ) (out : Bytes) → Digit out → Digit (decimal_from k n out)
unfolding decimal_from
decimal_from-Digit zero n out h = h
decimal_from-Digit (suc k) n out h = elim (Bool-cases (ltb n 10)) [
  | inl small ↦ rw small (is_digit-mod n)
  | inr large ↦ rw large (decimal_from-Digit k (n / 10) ((b'0' + n % 10) ∷ out) (is_digit-mod n))
]

decimal_from-append :
    (k n : ℕ) (out s : Bytes) → decimal_from k n out ++ s ≡ decimal_from k n (out ++ s)
unfolding decimal_from
decimal_from-append zero n out s = refl
decimal_from-append (suc k) n out s =
    let more = decimal_from-append k (n / 10) ((b'0' + n % 10) ∷ out) s in
    elim (Bool-cases (ltb n 10)) [ inl small ↦ rw small refl | inr large ↦ rw large more ]

decimal-append : (n : ℕ) (s : Bytes) → decimal n ++ s ≡ decimal_from (suc n) n s
unfolding decimal
decimal-append n s = decimal_from-append (suc n) n [] s

digits_value-NoDigit : (n : ℕ) (s : Bytes) → NoDigit s → digits_value n s ≡ n
unfolding digits_value
digits_value-NoDigit n [] h = refl
digits_value-NoDigit n (c ∷ s) h = rw h refl

-- A number is read back from its text, whatever stands behind it.
pub digits_value-decimal : (n : ℕ) (s : Bytes) → NoDigit s → digits_value 0 (decimal n ++ s) ≡ n
digits_value-decimal n s h =
    rw (decimal-append n s)
      (digits_value-decimal_from (suc n) n s (omega arith) ∙ digits_value-NoDigit n s h)

pub decimal-Digit : (n : ℕ) (s : Bytes) → Digit (decimal n ++ s)
unfolding decimal_from
decimal-Digit n s = rw (decimal-append n s) (elim (Bool-cases (ltb n 10)) [
  | inl small ↦ rw small (is_digit-mod n)
  | inr large ↦ rw large (decimal_from-Digit n (n / 10) ((b'0' + n % 10) ∷ s) (is_digit-mod n))
])
