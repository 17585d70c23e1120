-- ===== src/Signature.antt =====
-- lib/oauth/signature.rb and the classes of lib/oauth/signature: how a signature is built and
-- checked. OpenSSL's HMAC is an argument.
pub mod Compare
pub mod Base64
pub mod Accepts
pub mod Texts
use oauth.Prelude.{
  ℕ, List, [], ◌∷◌, ◌++◌, Bool, true, false, Option, none, some, Bytes, codes, if◌then◌else◌,
  bytes_eq,
}
use oauth.Prelude.Ascii.{downcase}
use oauth.Params.{Value, null, str, arr, obj, Params, store}
use oauth.Uri.{Uri}
use oauth.Outcome.{Outcome, ok, raise, unknown_signature_method, no_method_error, ◌>>=◌}
use oauth.Helper.Escape.{escape}
use oauth.RequestProxy.{Proxy, first_value, oauth_signature, signature_base_string, signature_key}
use oauth.Signature.Compare.{secure_eq}
use oauth.Signature.Base64.{compact64}

-- The classes that `implements` registers, RSA-SHA1 left out.
pub data Method : Type 0 where
  plaintext hmac_sha1 hmac_sha256 : Method

-- `AVAILABLE_METHODS[name]`
unfoldable pub available_method : Bytes → Option Method
unfolding bytes_eq
available_method name =
    if bytes_eq name (codes "plaintext")
    then some plaintext
    else if bytes_eq name (codes "hmac-sha1")
    then some hmac_sha1
    else if bytes_eq name (codes "hmac-sha256")
    then some hmac_sha256
    else none

-- What the caller's block returns: an array, or anything else.
pub data Secrets : Type 0 where
  array : List (Option Bytes) → Secrets
  other : Secrets

-- The caller's block: it takes the request, or its token, consumer key, nonce and timestamp.
pub data Block : Type 0 where
  no_block : Block
  of_request : (Proxy → Secrets) → Block
  of_fields : (Value → Value → Value → Value → Secrets) → Block

-- The entries of the options hash that are read; a consumer or token counts by its secret.
pub record Options : Type 0 where
  pub consumer : Option (Option Bytes)
  pub consumer_secret : Option Bytes
  pub token : Option (Option Bytes)
  pub token_secret : Option Bytes

pub record Signer : Type 0 where
  pub request : Proxy
  pub consumer_secret : Option Bytes
  pub token_secret : Option Bytes

-- A given secret overrides the one of the object.
unfoldable pub override : Option (Option Bytes) → Option Bytes → Option Bytes
override object (some secret) = some secret
override none none = none
override (some secret) none = secret

apply_secrets : Signer → Secrets → Signer
apply_secrets s (array (t ∷ c ∷ [])) = record s { token_secret = t; consumer_secret = c }
apply_secrets s _ = s

-- What `yield` returns; without a block the secrets stay.
yield_secrets : Proxy → Block → Secrets
yield_secrets p no_block = other
yield_secrets p (of_request f) = f p
yield_secrets p (of_fields f) =
    f (first_value (codes "oauth_token") p.parameters)
      (first_value (codes "oauth_consumer_key") p.parameters)
      (first_value (codes "oauth_nonce") p.parameters)
      (first_value (codes "oauth_timestamp") p.parameters)

-- `initialize`
unfoldable pub new_signer : Proxy → Options → Block → Signer
unfolding override apply_secrets yield_secrets
new_signer p o block =
    apply_secrets
      (record {
        request = p;
        consumer_secret = override o.consumer o.consumer_secret;
        token_secret = override o.token o.token_secret;
      })
      (yield_secrets p block)

escape_secret : Option Bytes → Bytes
escape_secret none = escape []
escape_secret (some s) = escape s

unfoldable pub secret : Signer → Bytes
unfolding escape_secret
secret s = escape_secret s.consumer_secret ++ b'&' ∷ escape_secret s.token_secret

-- `request.signature_method || …[:signature_method] || ""`, the second from the consumer of the
-- request's own options.
method_name : Value → Option Bytes → Outcome Bytes
method_name null none = ok []
method_name null (some name) = ok name
method_name (str name) fallback = ok name
method_name _ fallback = raise no_method_error

-- The name that the exception carries.
text_of : Value → Option Bytes
text_of (str s) = some s
text_of _ = none

-- The class of a name, which the exception cites.
class_of : Option Bytes → Bytes → Outcome Method
class_of cited name = elim (available_method (downcase name)) [
  | none ↦ raise (unknown_signature_method cited)
  | some m ↦ ok m
]

-- The class that a value of "oauth_signature_method" names.
unfoldable pub method_named : Value → Option Bytes → Outcome Method
unfolding available_method downcase method_name text_of class_of
method_named v fallback = method_name v fallback >>= class_of (text_of v)

-- `build` without the construction: the class that the request names.
unfoldable pub method_of : Proxy → Option Bytes → Outcome Method
unfolding method_named
method_of p fallback =
    method_named (first_value (codes "oauth_signature_method") p.parameters) fallback

unfoldable pub body_or_empty : Option Bytes → Bytes
body_or_empty none = []
body_or_empty (some body) = body

-- `body_hash` of the class, with `OpenSSL::Digest.digest` of a digest's name and a text.
unfoldable pub body_hash : (Method → Bytes → Bytes) → Method → Option Bytes → Option Bytes
unfolding compact64 body_or_empty
body_hash digest plaintext body = none
body_hash digest m body = some (compact64 (digest m (body_or_empty body)))

module _ (parse_uri : Bytes → Option Uri)
    -- `OpenSSL::HMAC.digest` of a digest's name, a key and a text
    (hmac : Method → Bytes → Bytes → Bytes) where
  -- `signature` of the class
  unfoldable pub signature : Method → Signer → Outcome Bytes
  unfolding signature_base_string secret compact64
  signature plaintext s = ok (secret s)
  signature m s =
      signature_base_string parse_uri s.request >>= λ text. ok (compact64 (hmac m (secret s) text))

  -- `==` of the class, where `request.signature` is a string.
  equals : Method → Bytes → Bytes → Bool
  equals plaintext ours theirs = bytes_eq ours theirs
  equals m ours theirs = secure_eq ours theirs

  -- A signature that is a hash has no `bytesize`.
  unfoldable pub check : Method → Bytes → Value → Outcome Bool
  unfolding equals
  check m ours (str theirs) = ok (equals m ours theirs)
  check m ours theirs = raise no_method_error

  -- `OAuth::Signature.sign`
  unfoldable pub sign : Proxy → Options → Block → Option Bytes → Outcome Bytes
  unfolding method_of signature new_signer
  sign p o block fallback = method_of p fallback >>= λ m. signature m (new_signer p o block)

  -- `OAuth::Signature.verify`
  unfoldable pub verify : Proxy → Options → Block → Option Bytes → Outcome Bool
  unfolding method_of signature new_signer equals check
  verify p o block fallback = method_of p fallback >>= λ m.
      signature m (new_signer p o block) >>= λ ours. check m ours (oauth_signature p)

  -- The proxy after `parameters["oauth_signature"] = text`: `parameters` of a MockRequest is the hash
  -- of its request, and that of the other classes is made anew on every call, so that the write is
  -- lost.
  unfoldable pub written : Bytes → Proxy → Proxy
  unfolding store
  written text p = record p {
    parameters = if p.is_mock then store signature_key (str text) p.parameters else p.parameters;
    signed = true;
  }

  -- `sign!` of the proxy, which returns the signature that it finds afterwards.
  unfoldable pub sign_request : Proxy → Options → Option Bytes → Outcome (Proxy × Value)
  unfolding sign oauth_signature written
  sign_request p o fallback =
      sign p o no_block fallback >>= λ text. ok (written text p, oauth_signature (written text p))
