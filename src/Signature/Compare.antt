-- ===== src/Signature/Compare.antt =====
-- `==` of lib/oauth/signature/base.rb, which compares two signatures without an early exit.
use Prim.Native.Nat.{bit_or, bit_xor}
use oauth.Prelude.{ℕ, ◌≡◌, refl, ◌↔◌, Bool, true, [], ◌∷◌, arith, Bytes, ◌==◌, ==_iff, length}
use oauth.Prelude.Bits.{bit_xor-eq_zero, bit_or-eq_zero}

-- `signature.bytes.zip(other.bytes) { |x, y| check |= x ^ y.to_i }`: a missing `y` is nil, and
-- nil.to_i is 0.
accumulate : Bytes → Bytes → ℕ → ℕ
accumulate [] others check = check
accumulate (x ∷ xs) [] check = accumulate xs [] (bit_or check (bit_xor x 0))
accumulate (x ∷ xs) (y ∷ ys) check = accumulate xs ys (bit_or check (bit_xor x y))

unfoldable pub secure_eq : Bytes → Bytes → Bool
unfolding accumulate
secure_eq signature other =
    accumulate signature other (bit_xor (length signature) (length other)) == 0

accumulate-eq_zero :
    (xs ys : Bytes) (check : ℕ)
    → length xs ≡ length ys
    → accumulate xs ys check ≡ 0
    → (check ≡ 0) × (xs ≡ ys)
unfolding accumulate
accumulate-eq_zero [] [] check e h = (h, refl)
accumulate-eq_zero [] (y ∷ ys) check e h = absurd (omega arith)
accumulate-eq_zero (x ∷ xs) [] check e h = absurd (omega arith)
accumulate-eq_zero (x ∷ xs) (y ∷ ys) check e h =
    let (c, same) = accumulate-eq_zero xs ys (bit_or check (bit_xor x y)) (omega arith) h in
    let (c0, differ0) = bit_or-eq_zero check (bit_xor x y) c in
    let head : x ≡ y = (bit_xor-eq_zero x y).0 differ0 in (c0, cc)

check_of_accumulate : (xs ys : Bytes) (check : ℕ) → accumulate xs ys check ≡ 0 → check ≡ 0
unfolding accumulate
check_of_accumulate [] ys check h = h
check_of_accumulate (x ∷ xs) [] check h =
    (bit_or-eq_zero check (bit_xor x 0)
      (check_of_accumulate xs [] (bit_or check (bit_xor x 0)) h)).0
check_of_accumulate (x ∷ xs) (y ∷ ys) check h =
    (bit_or-eq_zero check (bit_xor x y)
      (check_of_accumulate xs ys (bit_or check (bit_xor x y)) h)).0

accumulate_self : (xs : Bytes) → accumulate xs xs 0 ≡ 0
unfolding accumulate
accumulate_self [] = refl
accumulate_self (x ∷ xs) = rw ((bit_xor-eq_zero x x).1 refl) (accumulate_self xs)

-- The comparison accepts exactly the equal byte strings, of whatever lengths.
pub secure_eq_iff : (xs ys : Bytes) → (secure_eq xs ys ≡ true) ↔ (xs ≡ ys)
unfolding secure_eq
secure_eq_iff xs ys = (accepts, λ e. rw (← e) accepts_self)
  where
    accepts_self : secure_eq xs xs ≡ true
    accepts_self =
        rw ((bit_xor-eq_zero (length xs) (length xs)).1 refl) ((==_iff _ 0).1 (accumulate_self xs))

    accepts : secure_eq xs ys ≡ true → xs ≡ ys
    accepts h =
        let zero_result = (==_iff _ 0).0 h in
        let same_length =
          (bit_xor-eq_zero (length xs) (length ys)).0 (check_of_accumulate xs ys _ zero_result) in
        (accumulate-eq_zero xs ys _ same_length zero_result).1
