-- ===== src/Signature/Accepts.antt =====
-- A MockRequest that `sign!` has signed passes `verify`.
use oauth.Prelude.{
  ◌≡◌, refl, ap, sym, ◌∙◌, [], ◌∷◌, Option, Bytes, codes, bytes_eq, bytes_eq_refl, true,
  if◌then◌else◌,
}
use oauth.Params.{Value, str, store}
use oauth.Uri.{Uri}
use oauth.Outcome.{ok, ◌>>=◌, >>=-eq-ok}
use oauth.RequestProxy.{Proxy, signature_key, oauth_signature, signature_base_string}
use oauth.RequestProxy.Signed.{
  with_signature, signature_base_string-signed, first_value-signed, oauth_signature-signed,
}
use oauth.Signature.Base64.{compact64}
use oauth.Signature.Compare.{secure_eq_iff}
use oauth.Signature.{
  Method, plaintext, hmac_sha1, hmac_sha256, Secrets, array, Block, no_block, of_request, of_fields,
  Options, Signer, new_signer, secret, apply_secrets, yield_secrets, method_of, method_named,
  signature, equals, check, sign, verify, written, sign_request,
}

-- The block looks at the fields of a request only.
abbrev pub ByFields : Block → Type 0
ByFields (of_request f) = ⊥
ByFields _ = Unit

apply_secrets-request :
    (s : Signer) (p : Proxy) (x : Secrets)
    → apply_secrets (record s { request = p }) x ≡ record (apply_secrets s x) { request = p }
unfolding apply_secrets
apply_secrets-request s p (array (t ∷ c ∷ [])) = refl
apply_secrets-request s p _ = refl

request-apply_secrets : (s : Signer) (x : Secrets) → (apply_secrets s x).request ≡ s.request
unfolding apply_secrets
request-apply_secrets s (array (t ∷ c ∷ [])) = refl
request-apply_secrets s _ = refl

yield_secrets-signed :
    (p : Proxy) (text : Bytes) (block : Block)
    → ByFields block
    → yield_secrets (with_signature text p) block ≡ yield_secrets p block
unfolding yield_secrets bytes_eq
yield_secrets-signed p text no_block h = refl
yield_secrets-signed p text (of_request f) h = absurd h
yield_secrets-signed p text (of_fields f) h = simp (
  first_value-signed (codes "oauth_token") p text refl,
  first_value-signed (codes "oauth_consumer_key") p text refl,
  first_value-signed (codes "oauth_nonce") p text refl,
  first_value-signed (codes "oauth_timestamp") p text refl,
)

new_signer-signed :
    (p : Proxy) (text : Bytes) (o : Options) (block : Block)
    → ByFields block
    → new_signer (with_signature text p) o block
      ≡ record (new_signer p o block) { request = with_signature text p }
unfolding new_signer
new_signer-signed p text o block h =
    rw (yield_secrets-signed p text block h) (apply_secrets-request _ (with_signature text p) _)

method_of-signed :
    (p : Proxy) (text : Bytes) (fallback : Option Bytes)
    → method_of (with_signature text p) fallback ≡ method_of p fallback
unfolding method_of bytes_eq
method_of-signed p text fallback =
    ap (λ v. method_named v fallback)
      (first_value-signed (codes "oauth_signature_method") p text refl)

pub request-new_signer :
    (p : Proxy) (o : Options) (block : Block) → (new_signer p o block).request ≡ p
unfolding new_signer
request-new_signer p o block = request-apply_secrets _ (yield_secrets p block)

-- Without a block, the secrets are those of the options.
pub new_signer-request :
    (p p' : Proxy) (o : Options)
    → new_signer p' o no_block ≡ record (new_signer p o no_block) { request = p' }
unfolding new_signer apply_secrets yield_secrets
new_signer-request p p' o = refl

module _ (parse_uri : Bytes → Option Uri) (hmac : Method → Bytes → Bytes → Bytes) where
  pub signature-request :
      (m : Method) (s : Signer) (p : Proxy)
      → signature_base_string parse_uri p ≡ signature_base_string parse_uri s.request
      → signature parse_uri hmac m (record s { request = p }) ≡ signature parse_uri hmac m s
  unfolding signature secret
  signature-request plaintext s p h = refl
  signature-request hmac_sha1 s p h =
      ap (λ m. m >>= λ text. ok (compact64 (hmac hmac_sha1 (secret s) text))) h
  signature-request hmac_sha256 s p h =
      ap (λ m. m >>= λ text. ok (compact64 (hmac hmac_sha256 (secret s) text))) h

  -- The signature is the same with and without the signature in the request.
  signature-signed :
      (m : Method) (p : Proxy) (text : Bytes) (o : Options) (block : Block)
      → ByFields block
      → signature parse_uri hmac m (new_signer (with_signature text p) o block)
        ≡ signature parse_uri hmac m (new_signer p o block)
  signature-signed m p text o block h =
      ap (signature parse_uri hmac m) (new_signer-signed p text o block h)
      ∙ signature-request m (new_signer p o block) (with_signature text p) (
          signature_base_string-signed parse_uri p text
          ∙ ap (signature_base_string parse_uri) (sym (request-new_signer p o block)))

  pub check_self : (m : Method) (text : Bytes) → check parse_uri hmac m text (str text) ≡ ok true
  unfolding check equals
  check_self plaintext text = ap ok (bytes_eq_refl text)
  check_self hmac_sha1 text = ap ok ((secure_eq_iff text text).1 refl)
  check_self hmac_sha256 text = ap ok ((secure_eq_iff text text).1 refl)

  verify-with_signature :
      (p : Proxy) (o : Options) (block : Block) (fallback : Option Bytes) (text : Bytes)
      → ByFields block
      → sign parse_uri hmac p o block fallback ≡ ok text
      → verify parse_uri hmac (with_signature text p) o block fallback ≡ ok true
  unfolding sign verify
  verify-with_signature p o block fallback text h signed =
      let (m, is_m, is_text) = >>=-eq-ok (method_of p fallback) _ signed in
      let same_m = method_of-signed p text fallback ∙ is_m in
      let same_text = signature-signed m p text o block h ∙ is_text in
      rw (same_m, same_text, oauth_signature-signed p text) (check_self m text)

  written-mock :
      (text : Bytes) (p : Proxy)
      → p.is_mock ≡ true
      → written parse_uri hmac text p ≡ with_signature text p
  unfolding written
  written-mock text p mock =
      ap
        (λ b. record p {
          parameters = if b then store signature_key (str text) p.parameters else p.parameters;
          signed = true;
        })
        mock

  pub sign_request-mock :
      (p : Proxy) (o : Options) (fallback : Option Bytes) {p' : Proxy} {sig : Value}
      → p.is_mock ≡ true
      → sign_request parse_uri hmac p o fallback ≡ ok (p', sig)
      → (text : Bytes) × (sign parse_uri hmac p o no_block fallback ≡ ok text)
        × (with_signature text p ≡ p')
        × (sig ≡ oauth_signature p')
  unfolding sign_request
  sign_request-mock p o fallback {p'} {sig} mock signed =
      let (text, is_text, result) =
        >>=-eq-ok (sign parse_uri hmac p o no_block fallback) _ signed in
      let same : written parse_uri hmac text p ≡ p' = cc in
      let same_sig : oauth_signature (written parse_uri hmac text p) ≡ sig = cc in
      (text, is_text, sym (written-mock text p mock) ∙ same, sym same_sig ∙ ap oauth_signature same)

  -- A MockRequest that `sign!` has signed verifies with the same options, and the value returned is
  -- the signature in the request.
  pub verify-sign_request :
      (p : Proxy) (o : Options) (fallback : Option Bytes) {p' : Proxy} {sig : Value}
      → p.is_mock ≡ true
      → sign_request parse_uri hmac p o fallback ≡ ok (p', sig)
      → (verify parse_uri hmac p' o no_block fallback ≡ ok true) × (sig ≡ oauth_signature p')
  verify-sign_request p o fallback mock signed =
      let (text, is_text, same, same_sig) = sign_request-mock p o fallback mock signed in
      (rw same at (verify-with_signature p o no_block fallback text tt is_text), same_sig)
