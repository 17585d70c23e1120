-- ===== src/Client.antt =====
-- lib/oauth/client/helper.rb: the OAuth parameters of a request and its Authorization header. The
-- random nonce and the clock are arguments, which are read where the options give neither.
pub mod Keys
pub mod Sent
pub mod Received
pub mod Proxies
pub mod Signs
pub mod Accepted
pub mod NetHttp
use oauth.Prelude.{
  ℕ, List, [], ◌∷◌, Bool, true, false, ◌||◌, Option, none, some, Bytes, codes, bytes_eq,
  if◌then◌else◌, map,
}
use oauth.Params.{Value, Items, Params, store, select, includes}
use oauth.Uri.{Uri}
use oauth.Outcome.{Outcome, ok, ◌>>=◌}
use oauth.Helper.Header.{header_text}
use oauth.Helper.Normalize.{sort_params}
use oauth.RequestProxy.{Proxy, signature_key}
use oauth.RequestProxy.NetHttp.{HttpRequest, ProxyOptions, http_proxy}
use oauth.Signature.{Method, Options, no_block, sign}

-- `options[:allow_empty_params]`: true, false, an array, or one name or nil.
pub data AllowEmpty : Type 0 where
  all_empty : AllowEmpty
  no_empty : AllowEmpty
  these_empty : List Bytes → AllowEmpty
  this_empty : Option Bytes → AllowEmpty

-- What is read of a consumer and of a token.
pub record Credentials : Type 0 where
  pub key : Option Bytes
  pub secret : Option Bytes

pub record HelperOptions : Type 0 where
  pub body_hash : Option Bytes
  pub oauth_callback : Option Bytes
  pub consumer : Credentials
  -- the signature method of the consumer's own options
  pub consumer_signature_method : Option Bytes
  pub token : Option Credentials
  pub signature_method : Option Bytes
  pub timestamp : Option Bytes
  pub nonce : Option Bytes
  pub oauth_verifier : Option Bytes
  pub oauth_version : Option Bytes
  pub oauth_session_handle : Option Bytes
  pub allow_empty_params : AllowEmpty
  pub request_uri : Bytes
  pub unsigned_parameters : List Bytes
  pub realm : Option Bytes

unfoldable pub given_or : Option Bytes → Bytes → Bytes
given_or none default = default
given_or (some given) default = given

token_text : Option Credentials → Option Bytes
token_text none = some []
token_text (some token) = token.key

unfoldable pub token_secret : Option Credentials → Option (Option Bytes)
token_secret none = none
token_secret (some token) = some token.secret

-- `v.to_s != ""`
unfoldable pub is_filled : Option Bytes → Bool
is_filled none = false
is_filled (some []) = false
is_filled (some (c ∷ text)) = true

unfoldable pub may_be_empty : AllowEmpty → Bytes → Bool
unfolding includes bytes_eq
may_be_empty all_empty k = true
may_be_empty no_empty k = false
may_be_empty (these_empty names) k = includes names k
may_be_empty (this_empty none) k = false
may_be_empty (this_empty (some name)) k = bytes_eq name k

-- The test of `select!`.
unfoldable pub is_kept : AllowEmpty → Bytes → Option Bytes → Bool
unfolding is_filled may_be_empty
is_kept allowed k v = is_filled v || may_be_empty allowed k

-- A value as the header shows it.
unfoldable pub shown : Option Bytes → Bytes
shown none = []
shown (some text) = text

unfoldable pub shown_pair : Bytes × Option Bytes → Bytes × Bytes
unfolding shown
shown_pair (k, v) = (k, shown v)

unfoldable pub shown_values : Params (Option Bytes) → Params Bytes
unfolding shown_pair
shown_values = map shown_pair

-- `generate_key` and `generate_timestamp`
module _ (generate_key generate_timestamp : Bytes) where
  -- The hash `out` before `select!`.
  unfoldable pub all_oauth_parameters : HelperOptions → Params (Option Bytes)
  unfolding given_or token_text
  all_oauth_parameters o =
      (codes "oauth_body_hash", o.body_hash)
      ∷ (codes "oauth_callback", o.oauth_callback)
      ∷ (codes "oauth_consumer_key", o.consumer.key)
      ∷ (codes "oauth_token", token_text o.token)
      ∷ (codes "oauth_signature_method", some (given_or o.signature_method (codes "HMAC-SHA1")))
      ∷ (codes "oauth_timestamp", some (given_or o.timestamp generate_timestamp))
      ∷ (codes "oauth_nonce", some (given_or o.nonce generate_key))
      ∷ (codes "oauth_verifier", o.oauth_verifier)
      ∷ (codes "oauth_version", some (given_or o.oauth_version (codes "1.0")))
      ∷ (codes "oauth_session_handle", o.oauth_session_handle)
      ∷ []

  unfoldable pub oauth_parameters : HelperOptions → Params (Option Bytes)
  unfolding all_oauth_parameters select is_kept
  oauth_parameters o = select (is_kept o.allow_empty_params) (all_oauth_parameters o)

  -- The secrets of the options, for a signature.
  unfoldable pub secrets_of : HelperOptions → Options
  unfolding token_secret
  secrets_of o = record {
    consumer = some o.consumer.secret;
    consumer_secret = none;
    token = token_secret o.token;
    token_secret = none;
  }

  module _ (parse_uri : Bytes → Option Uri) (cgi_parse : Bytes → Params Items)
      (hmac : Method → Bytes → Bytes → Bytes) where
    -- `signature`, of the parameters that are given.
    unfoldable pub helper_signature :
        HttpRequest → HelperOptions → Params (Option Bytes) → Outcome Bytes
    unfolding http_proxy sign secrets_of
    helper_signature r o parameters =
        http_proxy parse_uri cgi_parse r (record {
          uri = o.request_uri;
          parameters = parameters;
          unsigned_parameters = o.unsigned_parameters;
        })
        >>= λ p. sign parse_uri hmac p (secrets_of o) no_block o.consumer_signature_method

    -- The text of the header, with the signature among its parameters.
    signed_header : HelperOptions → Params (Option Bytes) → Bytes → Bytes
    unfolding store sort_params shown_values header_text
    signed_header o parameters text =
        header_text o.realm
          (shown_values (sort_params (store signature_key (some text) parameters)))

    unfoldable pub header : HttpRequest → HelperOptions → Outcome Bytes
    unfolding oauth_parameters helper_signature signed_header
    header r o = helper_signature r o (oauth_parameters o) >>= λ text.
        ok (signed_header o (oauth_parameters o) text)
