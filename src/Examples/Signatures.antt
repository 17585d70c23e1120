-- ===== src/Examples/Signatures.antt =====
-- Inputs for lib/oauth/signature and lib/oauth/request_proxy.
use oauth.Prelude.{◌≡◌, ◌↔◌, refl, [], ◌∷◌, Bytes, codes, some, none, arith, Option, true, false}
use oauth.Params.{str}
use oauth.Uri.{Uri}
use oauth.Outcome.{ok}
use oauth.Helper.Escape.{escape}
use oauth.Helper.Normalize.{pair_text}
use oauth.RequestProxy.{Proxy, oauth_signature, signature_base_string}
use oauth.RequestProxy.BaseString.{base_text_inj}
use oauth.RequestProxy.Signed.{with_signature, signature_base_string-signed}
use oauth.Signature.Compare.{secure_eq, secure_eq_iff}
use oauth.Signature.Base64.{compact64, quads, compact64-quads}
use oauth.Signature.{Method, Options, no_block, sign_request, verify}
use oauth.Signature.Accepts.{verify-sign_request}
use mathlib.Core.List.{flatten}

secure_eq_iff_example : (secure_eq (codes "ab") (codes "abc") ≡ true) ↔ (codes "ab" ≡ codes "abc")
secure_eq_iff_example = secure_eq_iff (codes "ab") (codes "abc")

compact64-quads_example : compact64 (codes "hello") ≡ flatten (quads (codes "hello"))
compact64-quads_example = compact64-quads (codes "hello") (omega arith)

hello64 : compact64 (codes "hello") ≡ codes "aGVsbG8="
unfolding compact64
hello64 = refl

base_text_inj_example :
    (codes "GET" ≡ codes "GET")
    × (codes "http://a/" ≡ codes "http://a/")
    × (codes "a=1" ≡ codes "a=1")
base_text_inj_example =
    base_text_inj (codes "GET") (codes "http://a/") (codes "a=1") (codes "GET") (codes "http://a/")
      (codes "a=1") (omega arith) (omega arith) refl

-- A reader of one address, and a mock of HMAC.
abbrev pub one_uri : Bytes → Option Uri
one_uri text = some (record {
  scheme = some (codes "HTTP");
  host = some (codes "Example.com");
  port = some 80;
  path = some [];
  query = none;
})

abbrev pub mock_hmac : Method → Bytes → Bytes → Bytes
mock_hmac m key text = codes "digest"

abbrev get_photos : Proxy
get_photos = record {
  method = codes "GET";
  uri = codes "HTTP://Example.com";
  parameters =
      (codes "oauth_signature_method", str (codes "HMAC-SHA1"))
      ∷ (codes "oauth_token", str (codes "t k"))
      ∷ [];
  unsigned_parameters = [];
  signed = false;
  is_mock = true;
}

base_string_text :
    signature_base_string one_uri get_photos
    ≡ ok (
        codes
          "GET&http%3A%2F%2Fexample.com%2F&oauth_signature_method%3DHMAC-SHA1%26oauth_token%3Dt%2520k")
unfolding signature_base_string escape pair_text
base_string_text = refl

signature_base_string-signed_example :
    signature_base_string one_uri (with_signature (codes "x") get_photos)
    ≡ signature_base_string one_uri get_photos
signature_base_string-signed_example = signature_base_string-signed one_uri get_photos (codes "x")

abbrev pub secrets : Options
secrets = record {
  consumer = some (some (codes "cs"));
  consumer_secret = none;
  token = none;
  token_secret = some (codes "ts");
}

-- "digest" in base64
abbrev pub digest64 : Bytes
digest64 = codes "ZGlnZXN0"

photos_signed :
    sign_request one_uri mock_hmac get_photos secrets none
    ≡ ok (with_signature digest64 get_photos, str digest64)
unfolding sign_request
photos_signed = refl

-- A proxy of another class is told to be signed, and has no signature.
rebuilt_unsigned :
    sign_request one_uri mock_hmac (record get_photos { is_mock = false }) secrets none
    ≡ ok (record get_photos { is_mock = false; signed = true }, str [])
unfolding sign_request
rebuilt_unsigned = refl

verify-sign_request_example :
    (verify one_uri mock_hmac (with_signature digest64 get_photos) secrets no_block none ≡ ok true)
    × (str digest64 ≡ oauth_signature (with_signature digest64 get_photos))
verify-sign_request_example =
    verify-sign_request one_uri mock_hmac get_photos secrets none refl photos_signed
