-- ===== src/Prelude/Ascii.antt =====
-- Ruby's `downcase`, `casecmp` and `to_s` on ASCII texts and numbers.
use oauth.Prelude.Tests.{Bytes, ltb, leb, if◌then◌else◌, bytes_eq}
use Prim.Native.Nat.{ℕ, zero, suc, ◌+◌, ◌/◌, ◌%◌}
use mathlib.Core.Bool.{Bool, ◌&&◌}
use mathlib.Core.List.{[], ◌∷◌, map}
use mathlib.Core.Path.{◌≡◌, refl, ap}
use native.Mathlib.Omega.{arith}

unfoldable pub lower_byte : ℕ → ℕ
lower_byte c = if leb b'A' c && leb c b'Z' then c + 32 else c

unfoldable pub downcase : Bytes → Bytes
unfolding lower_byte
downcase = map lower_byte

-- `casecmp(t).zero?`
unfoldable pub same_case : Bytes → Bytes → Bool
unfolding downcase bytes_eq
same_case s t = bytes_eq (downcase s) (downcase t)

lower_byte_idem : (c : ℕ) → lower_byte (lower_byte c) ≡ lower_byte c
unfolding lower_byte
lower_byte_idem c = ground arith

pub downcase_idem : (s : Bytes) → downcase (downcase s) ≡ downcase s
unfolding downcase
downcase_idem [] = refl
downcase_idem (c ∷ s) = rw (lower_byte_idem c) (ap (lower_byte c ∷◌) (downcase_idem s))

-- The digits of a number, the count bounding how many.
unfoldable pub decimal_from : ℕ → ℕ → Bytes → Bytes
decimal_from zero n out = out
decimal_from (suc k) n out =
    let digit = b'0' + n % 10 in
    let more = decimal_from k (n / 10) (digit ∷ out) in if ltb n 10 then digit ∷ out else more

-- `to_s`
unfoldable pub decimal : ℕ → Bytes
unfolding decimal_from
decimal n = decimal_from (suc n) n []
