-- ===== src/Outcome.antt =====
-- Exceptions as values: the classes of lib/oauth/errors, and those of Ruby and of the other files
-- that the modelled methods raise.
use oauth.Prelude.{ℕ, Bytes, Option, ◌≡◌, refl}
use oauth.Params.{Params}

pub data Error : Type 0 where
  -- `OAuth::Problem`, with its `problem` and `params`
  problem : Option Bytes → Params Bytes → Error
  -- `OAuth::Unauthorized` of a response with this status
  unauthorized : ℕ → Error
  -- `response.error!` of a response with this status
  http_error : ℕ → Error
  unknown_signature_method : Option Bytes → Error
  argument_error type_error no_method_error not_implemented invalid_uri : Error

pub data Outcome {ℓ} (V : Type ℓ) : Type ℓ where
  raise : Error → Outcome V
  ok : V → Outcome V

-- What follows a call, which an exception passes over.
infixl 5 ◌>>=◌
abbrev pub ◌>>=◌ {ℓ ℓ'} : {V : Type ℓ} {R : Type ℓ'} → Outcome V → (V → Outcome R) → Outcome R
raise error >>= next = raise error
ok value >>= next = next value

-- A chain that returned had a first call that returned.
pub >>=-eq-ok {ℓ ℓ'} :
    {V : Type ℓ} {R : Type ℓ'} (first : Outcome V) (next : V → Outcome R) {result : R}
    → (first >>= next) ≡ ok result
    → (value : V) × (first ≡ ok value) × (next value ≡ ok result)
>>=-eq-ok (raise error) next returned = cc
>>=-eq-ok (ok value) next returned = (value, refl, returned)

pub ok-injective {ℓ} : {V : Type ℓ} {a b : V} → ok a ≡ ok b → a ≡ b
ok-injective e = cc
