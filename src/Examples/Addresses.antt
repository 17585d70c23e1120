-- ===== src/Examples/Addresses.antt =====
-- Inputs for the normalised text of lib/oauth/helper.rb without its order, and for the signed address
-- of lib/oauth/request_proxy/base.rb.
use mathlib.Core.Quot.{Quot}
use oauth.Prelude.{
  ◌≡◌, refl, [], ◌∷◌, Bytes, bytes_eq, bytes_ne, codes, some, true, false, arith, IsBytes,
}
use oauth.Params.{str, Params, NodupKeys, store}
use oauth.Outcome.{ok}
use oauth.Helper.Normalize.{normalize, pair_text}
use oauth.Helper.Escape.{escape}
use oauth.Helper.Normalize.RoundTrip.{as_values, BytePairs}
use oauth.Helper.Normalize.Unordered.{
  Written, Unordered, normalize_unordered, normalize_unordered_inj,
}
use oauth.RequestProxy.{Proxy}
use oauth.RequestProxy.Signed.{with_signature}
use oauth.RequestProxy.SignedUri.{signed_uri}
use oauth.RequestProxy.SignedUri.Verified.{CarriesVerified, verify-signed_uri}
use oauth.Signature.{Method, override, sign_request}
use oauth.Examples.Signatures.{one_uri, mock_hmac, secrets, digest64}

abbrev ab_params : Params Bytes
ab_params = (codes "a", codes "1") ∷ (codes "b", codes "2 3") ∷ []

abbrev ba_params : Params Bytes
ba_params = (codes "b", codes "2 3") ∷ (codes "a", codes "1") ∷ []

ab_once : NodupKeys ab_params
unfolding bytes_eq
ab_once = ((bytes_ne _ _ refl, tt), (tt, tt))

ba_once : NodupKeys ba_params
unfolding bytes_eq
ba_once = ((bytes_ne _ _ refl, tt), (tt, tt))

ab_bytes : BytePairs ab_params
ab_bytes = omega arith

ba_bytes : BytePairs ba_params
ba_bytes = omega arith

abbrev ab : Written
ab = (ab_params, ab_once, ab_bytes)

abbrev ba : Written
ba = (ba_params, ba_once, ba_bytes)

same_text : normalize_unordered (Quot.mk ab) ≡ normalize_unordered (Quot.mk ba)
unfolding normalize_unordered normalize
same_text = refl

normalize_unordered_inj_example : ◌≡◌ {A = Unordered} (Quot.mk ab) (Quot.mk ba)
normalize_unordered_inj_example = normalize_unordered_inj (Quot.mk ab) (Quot.mk ba) same_text

-- A request whose parameters are strings.
abbrev get_items : Proxy
get_items = record {
  method = codes "GET";
  uri = codes "http://example.com/items";
  parameters = as_values ba_params;
  unsigned_parameters = [];
  signed = false;
  is_mock = true;
}

items_signed :
    sign_request one_uri mock_hmac get_items secrets (some (codes "HMAC-SHA1"))
    ≡ ok (with_signature digest64 get_items, str digest64)
unfolding sign_request
items_signed = refl

mock_digest_bytes : (m : Method) (key text : Bytes) → IsBytes (mock_hmac m key text)
mock_digest_bytes m key text = omega arith

verify-signed_uri_example :
    CarriesVerified one_uri mock_hmac
      (with_signature digest64 get_items)
      secrets
      (some (codes "HMAC-SHA1"))
unfolding override
verify-signed_uri_example =
    verify-signed_uri one_uri mock_hmac mock_digest_bytes get_items secrets
      (some (codes "HMAC-SHA1")) ba_params refl refl ba_once ba_bytes (omega arith) (omega arith)
      items_signed

items_uri :
    signed_uri true (with_signature digest64 get_items)
    ≡ ok (some (codes "http://example.com/items?a=1&b=2%203&oauth_signature=ZGlnZXN0"))
unfolding signed_uri normalize store bytes_eq pair_text escape
items_uri = refl
