-- ===== src/Signature/Texts.antt =====
-- The bytes of a signature.
use oauth.Prelude.{
  ℕ, ◌≡◌, ◌≢◌, ◌<◌, ◌/◌, ◌%◌, [], ◌∷◌, All-append, IsBytes, Option, none, some, Bytes, arith, false,
}
use oauth.Uri.{Uri}
use oauth.Outcome.{ok, >>=-eq-ok, ok-injective}
use oauth.Helper.Escape.{is_reserved, hex_digit, escape_byte, escape}
use oauth.Helper.Header.Parts.{IsLine}
use oauth.RequestProxy.{signature_base_string}
use oauth.Signature.Base64.{compact64-IsLine}
use oauth.Signature.{
  Method, plaintext, hmac_sha1, hmac_sha256, Signer, secret, escape_secret, signature,
}

hex_digit-line : (d : ℕ) → d < 16 → (hex_digit d < 256) × (hex_digit d ≢ 10)
unfolding hex_digit
hex_digit-line d h = ground arith

is_reserved-line : (c : ℕ) → is_reserved c ≡ false → (c < 256) × (c ≢ 10)
unfolding is_reserved
is_reserved-line c h = ground arith

escape_byte-IsLine : (b : ℕ) → b < 256 → IsLine (escape_byte b)
unfolding escape_byte
escape_byte-IsLine b h = ground (
  arith,
  is_reserved-line b,
  hex_digit-line (b / 16) (omega arith),
  hex_digit-line (b % 16) (omega arith),
)

pub escape-IsLine : (s : Bytes) → IsBytes s → IsLine (escape s)
unfolding escape
escape-IsLine [] h = tt
escape-IsLine (b ∷ s) h =
    All-append _ (escape_byte b) (escape s) (escape_byte-IsLine b h.0) (escape-IsLine s h.1)

-- A secret of bytes, or none.
abbrev pub SecretBytes : Option Bytes → Type 0
SecretBytes none = Unit
SecretBytes (some s) = IsBytes s

escape_secret-IsLine : (s : Option Bytes) → SecretBytes s → IsLine (escape_secret s)
unfolding escape_secret
escape_secret-IsLine none h = escape-IsLine [] tt
escape_secret-IsLine (some s) h = escape-IsLine s h

secret-IsLine :
    (s : Signer) → SecretBytes s.consumer_secret → SecretBytes s.token_secret → IsLine (secret s)
unfolding secret
secret-IsLine s c t =
    All-append _ (escape_secret s.consumer_secret) (b'&' ∷ escape_secret s.token_secret)
      (escape_secret-IsLine s.consumer_secret c)
      (omega arith, escape_secret-IsLine s.token_secret t)

module _ (parse_uri : Bytes → Option Uri) (hmac : Method → Bytes → Bytes → Bytes)
    (digest_bytes : (m : Method) (key text : Bytes) → IsBytes (hmac m key text)) where
  -- The signature holds no line feed, if the secrets and the digests are bytes.
  pub signature-IsLine :
      (m : Method) (s : Signer) (text : Bytes)
      → SecretBytes s.consumer_secret
      → SecretBytes s.token_secret
      → signature parse_uri hmac m s ≡ ok text
      → IsLine text
  unfolding signature
  signature-IsLine plaintext s text c t e = rw (← ok-injective e) (secret-IsLine s c t)
  signature-IsLine hmac_sha1 s text c t e =
      let (base, is_base, result) = >>=-eq-ok (signature_base_string parse_uri s.request) _ e in
      rw (← ok-injective result)
        (compact64-IsLine (hmac hmac_sha1 (secret s) base) (digest_bytes hmac_sha1 (secret s) base))
  signature-IsLine hmac_sha256 s text c t e =
      let (base, is_base, result) = >>=-eq-ok (signature_base_string parse_uri s.request) _ e in
      rw (← ok-injective result) (
        compact64-IsLine (hmac hmac_sha256 (secret s) base)
          (digest_bytes hmac_sha256 (secret s) base))
