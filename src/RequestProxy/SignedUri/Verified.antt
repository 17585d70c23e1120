-- ===== src/RequestProxy/SignedUri/Verified.antt =====
-- A server that reads the parameters of a request from its signed address.
use mathlib.Core.List.{Permᴰ}
use mathlib.Core.List.Permᴰ
use mathlib.Core.Option
use mathlib.Core.Path.{subst}
use oauth.Prelude.{
  ◌≡◌, ◌≢◌, refl, sym, ap, ◌∙◌, [], ◌∷◌, ◌++◌, IsBytes, true, inl, inr, Bool-cases, Option, none,
  some, Bytes, bytes_eq, arith,
}
use oauth.Params.{Value, str, Params, NodupKeys, store}
use oauth.Params.Perms.{sort-Permᴰ, NodupKeys-Permᴰ}
use oauth.Params.Stored.{All-store, store-NodupKeys, store-ne-nil}
use oauth.Uri.{Uri}
use oauth.Outcome.{ok, >>=-eq-ok}
use oauth.Helper.Header.Parts.{IsLine-IsBytes}
use oauth.Helper.Normalize.{key_le, sort_params, normalize}
use oauth.Helper.Normalize.RoundTrip.{as_values, BytePairs, read_form, read_form-normalize}
use oauth.Helper.Normalize.Unordered.{as_values-Permᴰ, as_values-NodupKeys}
use oauth.RequestProxy.{Proxy, signature_key, normalize_or_raise}
use oauth.RequestProxy.SignedUri.{signed_uri, carried, uri_and_query}
use oauth.RequestProxy.SignedUri.Reordered.{reordered, verify-reordered}
use oauth.Signature.{
  Method, no_block, Options, override, new_signer, sign, method_of, verify, sign_request,
}
use oauth.Signature.Accepts.{verify-sign_request, sign_request-mock}
use oauth.Signature.Texts.{SecretBytes, signature-IsLine}

store-as_values :
    (k v : Bytes) (ps : Params Bytes) → store k (str v) (as_values ps) ≡ as_values (store k v ps)
unfolding store
store-as_values k v [] = refl
store-as_values k v ((j, w) ∷ ps) = elim (Bool-cases (bytes_eq j k)) [
  | inl same ↦ rw same refl
  | inr differ ↦ rw differ (ap ((j, str w) ∷◌) (store-as_values k v ps))
]

bind-some :
    {A B : Type 0} (m : Option A) (f : A → Option B) (b : B)
    → Option.bind m f ≡ some b
    → (a : A) × (m ≡ some a) × (f a ≡ some b)
unfolding Option.bind
bind-some none f b h = cc
bind-some (some a) f b h = (a, refl, h)

signed_uri-query :
    (p : Proxy) (all : Params Bytes) (query : Bytes)
    → p.parameters ≡ as_values all
    → p.signed ≡ true
    → normalize (as_values all) ≡ some query
    → signed_uri true p ≡ ok (some (p.uri ++ b'?' ∷ query))
unfolding signed_uri carried uri_and_query normalize_or_raise
signed_uri-query p all query is_all is_signed is_query =
    rw (is_signed, is_all, normalize_or_raise, is_query) refl

module _ (parse_uri : Bytes → Option Uri) (hmac : Method → Bytes → Bytes → Bytes) where
  -- What a signed address carries, and how a server takes it.
  abbrev pub CarriesVerified : Proxy → Options → Option Bytes → Type 0
  CarriesVerified p o fallback =
      (query : Bytes) × (read : Params Bytes) × (signed_uri true p
        ≡ ok (some (p.uri ++ b'?' ∷ query)))
      × (read_form query ≡ some read)
      × (verify parse_uri hmac (reordered (as_values read) p) o no_block fallback ≡ ok true)

  carries_verified :
      (p : Proxy) (o : Options) (fallback : Option Bytes) (all : Params Bytes)
      → p.parameters ≡ as_values all
      → p.signed ≡ true
      → all ≢ []
      → NodupKeys all
      → BytePairs all
      → verify parse_uri hmac p o no_block fallback ≡ ok true
      → CarriesVerified p o fallback
  unfolding sort_params
  carries_verified p o fallback all is_all is_signed ne nodup bytes verified =
      let (query, is_query, is_read) =
        bind-some (normalize (as_values all)) read_form (sort_params all)
          (read_form-normalize all ne bytes) in
      let sorted = Permᴰ.symm (sort-Permᴰ key_le all) in
      let read = sort_params all in
      let perm : Permᴰ (as_values read) p.parameters =
        subst (Permᴰ (as_values read)) (sym is_all) (as_values-Permᴰ (sort-Permᴰ key_le all)) in
      (
        query,
        read,
        signed_uri-query p all query is_all is_signed is_query,
        is_read,
        verify-reordered p (as_values read) perm
              (as_values-NodupKeys read (NodupKeys-Permᴰ sorted nodup)) parse_uri hmac o fallback
            ∙ verified,
      )

module _ (parse_uri : Bytes → Option Uri) (hmac : Method → Bytes → Bytes → Bytes)
    (digest_bytes : (m : Method) (key text : Bytes) → IsBytes (hmac m key text)) where
  -- A MockRequest whose parameters are strings of bytes under different keys, and that `sign!` has
  -- signed with secrets of bytes, has a signed address: its address, a question mark and a query. The
  -- query, read as a form, gives parameters with which the request verifies.
  pub verify-signed_uri :
      (p : Proxy) (o : Options) (fallback : Option Bytes) (ps : Params Bytes) {p' : Proxy}
      {sig : Value}
      → p.is_mock ≡ true
      → p.parameters ≡ as_values ps
      → NodupKeys ps
      → BytePairs ps
      → SecretBytes (override o.consumer o.consumer_secret)
      → SecretBytes (override o.token o.token_secret)
      → sign_request parse_uri hmac p o fallback ≡ ok (p', sig)
      → CarriesVerified parse_uri hmac p' o fallback
  unfolding sign new_signer
  verify-signed_uri p o fallback ps {p'} {sig} mock is_ps nodup bytes consumer_bytes token_bytes
        signed =
      let (text, is_text, same, _) = sign_request-mock parse_uri hmac p o fallback mock signed in
      let (m, is_m, is_signature) = >>=-eq-ok (method_of p fallback) _ is_text in
      let line =
        signature-IsLine parse_uri hmac digest_bytes m (new_signer p o no_block) text consumer_bytes
          token_bytes is_signature in
      carries_verified parse_uri hmac p' o fallback (store signature_key text ps)
        (ap (λ q. q.parameters) (sym same)
          ∙ ap (store signature_key (str text)) is_ps
          ∙ store-as_values signature_key text ps)
        (ap (λ q. q.signed) (sym same)) (store-ne-nil signature_key text ps)
        (store-NodupKeys signature_key text ps nodup)
        (All-store signature_key text (λ q. IsBytes q.0 × IsBytes q.1) ps
          (omega arith, IsLine-IsBytes text line) bytes)
        (verify-sign_request parse_uri hmac p o fallback mock signed).0
