-- ===== src/RequestProxy.antt =====
-- Class `Base` of lib/oauth/request_proxy/base.rb, with `normalized_uri` of `MockRequest` of
-- request_proxy/mock_request.rb. A proxy is what the class gives of a request.
pub mod BaseString
pub mod Signed
pub mod NetHttp
pub mod Rack
pub mod SignedUri
use oauth.Prelude.{
  ℕ, List, [], ◌∷◌, ◌++◌, Bool, true, false, not, ◌&&◌, ◌||◌, Option, none, some, Bytes, codes, map,
  ◌==◌, if◌then◌else◌, bytes_eq,
}
use oauth.Prelude.Split.{join}
use oauth.Prelude.Ascii.{downcase, same_case, decimal}
use oauth.Params.{
  Value, null, str, arr, obj, Items, no_items, item, Params, lookup, store, select, includes,
}
use oauth.Uri.{Uri}
use oauth.Outcome.{Outcome, ok, raise, argument_error, no_method_error, invalid_uri, ◌>>=◌}
use oauth.Helper.Escape.{escape}
use oauth.Helper.Normalize.{normalize}
use oauth.Helper.Header.{header_text}

-- `PARAMETERS` of lib/oauth/oauth.rb.
abbrev pub oauth_names : List Bytes
oauth_names =
    codes "oauth_callback"
    ∷ codes "oauth_consumer_key"
    ∷ codes "oauth_token"
    ∷ codes "oauth_signature_method"
    ∷ codes "oauth_timestamp"
    ∷ codes "oauth_nonce"
    ∷ codes "oauth_verifier"
    ∷ codes "oauth_version"
    ∷ codes "oauth_signature"
    ∷ codes "oauth_body_hash"
    ∷ []

abbrev pub signature_key : Bytes
signature_key = codes "oauth_signature"

pub record Proxy : Type 0 where
  pub method : Bytes
  pub uri : Bytes
  pub parameters : Params Value
  pub unsigned_parameters : List Bytes
  pub signed : Bool
  -- whether the class is `MockRequest`, with a `normalized_uri` of its own
  pub is_mock : Bool

-- `[value].flatten.first`
unfoldable mutual
  pub first_of : Value → Option Value
  first_of null = some null
  first_of (str s) = some (str s)
  first_of (obj fs) = some (obj fs)
  first_of (arr xs) = first_item xs

  pub first_item : Items → Option Value
  first_item no_items = none
  first_item (item v xs) =
      let rest = first_item xs in elim (first_of v) [ some w ↦ some w | none ↦ rest ]

-- nil where the array is empty
unfoldable pub value_or_nil : Option Value → Value
value_or_nil none = null
value_or_nil (some v) = v

-- `[parameters[name]].flatten.first`, the body of the readers `oauth_callback`, `oauth_nonce` and so on
unfoldable pub first_value : Bytes → Params Value → Value
unfolding lookup first_of value_or_nil
first_value name params = value_or_nil (first_of (value_or_nil (lookup name params)))

-- `value || ""`
unfoldable pub or_empty : Value → Value
or_empty null = str []
or_empty v = v

unfoldable pub oauth_signature : Proxy → Value
unfolding first_value or_empty
oauth_signature p = or_empty (first_value signature_key p.parameters)

unfoldable pub signature_and_unsigned_parameters : Proxy → List Bytes
signature_and_unsigned_parameters p = p.unsigned_parameters ++ signature_key ∷ []

unfoldable pub parameters_for_signature : Proxy → Params Value
unfolding select includes signature_and_unsigned_parameters
parameters_for_signature p =
    select (λ k v. not (includes (signature_and_unsigned_parameters p) k)) p.parameters

-- `!v.nil? && v != ""`
unfoldable pub is_given : Value → Bool
is_given null = false
is_given (str s) = not (bytes_eq s [])
is_given _ = true

unfoldable pub oauth_parameters : Proxy → Params Value
unfolding select includes is_given
oauth_parameters p = select (λ k v. includes oauth_names k && is_given v) p.parameters

unfoldable pub non_oauth_parameters : Proxy → Params Value
unfolding select includes
non_oauth_parameters p = select (λ k v. not (includes oauth_names k)) p.parameters

port_is : ℕ → Option ℕ → Bool
port_is n none = false
port_is n (some port) = port == n

port_text : Option ℕ → Bytes
port_text none = []
port_text (some port) = decimal port

-- `":#{u.port}"` unless it is the default port of the scheme
unfoldable pub port_suffix : Bytes → Option ℕ → Bytes
unfolding same_case port_is port_text
port_suffix scheme port =
    if (same_case scheme (codes "http") && not (port_is 80 port))
      || (same_case scheme (codes "https") && not (port_is 443 port))
    then b':' ∷ port_text port
    else []

-- `(u.path && u.path != "") ? u.path : "/"`
path_text : Option Bytes → Bytes
path_text none = codes "/"
path_text (some []) = codes "/"
path_text (some (c ∷ path)) = c ∷ path

-- `downcase` of a nil scheme or host raises NoMethodError.
unfoldable pub uri_text : Uri → Outcome Bytes
unfolding downcase port_suffix path_text
uri_text u = elim u.scheme [
  | none ↦ raise no_method_error
  | some scheme ↦ elim u.host [
    | none ↦ raise no_method_error
    | some host ↦ ok (
        downcase scheme
        ++ (codes "://" ++ (downcase host ++ (port_suffix scheme u.port ++ path_text u.path))))
  ]
]

-- `base.map { |v| escape(v) }.join("&")`
unfoldable pub base_text : Bytes → Bytes → Bytes → Bytes
unfolding join
base_text method uri parameters =
    join (b'&' ∷ []) (escape method ∷ escape uri ∷ escape parameters ∷ [])

-- `normalize`, with its exception.
unfoldable pub normalize_or_raise : Params Value → Outcome Bytes
unfolding normalize
normalize_or_raise params = elim (normalize params) [
  | none ↦ raise argument_error
  | some text ↦ ok text
]

unfoldable pub normalized_parameters : Proxy → Outcome Bytes
unfolding normalize_or_raise parameters_for_signature
normalized_parameters p = normalize_or_raise (parameters_for_signature p)

-- `URI.parse` is Ruby's: `none` is its InvalidURIError.
module _ (parse_uri : Bytes → Option Uri) where
  -- `normalized_uri` of `Base`
  unfoldable pub base_normalized_uri : Bytes → Outcome Bytes
  unfolding uri_text
  base_normalized_uri uri = elim (parse_uri uri) [ none ↦ raise invalid_uri | some u ↦ uri_text u ]

  -- `MockRequest` rescues every StandardError, and takes the URI as it is.
  unfoldable pub normalized_uri : Bytes → Bytes
  unfolding base_normalized_uri
  normalized_uri uri = elim (base_normalized_uri uri) [ ok text ↦ text | raise e ↦ uri ]

  -- `normalized_uri` of the class of a proxy
  unfoldable pub class_normalized_uri : Proxy → Outcome Bytes
  unfolding normalized_uri base_normalized_uri
  class_normalized_uri p =
      if p.is_mock then ok (normalized_uri p.uri) else base_normalized_uri p.uri

  unfoldable pub signature_base_string : Proxy → Outcome Bytes
  unfolding base_text class_normalized_uri normalized_parameters
  signature_base_string p = class_normalized_uri p >>= λ uri.
      normalized_parameters p >>= λ params. ok (base_text p.method uri params)
