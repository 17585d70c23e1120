-- ===== src/Consumer/Tokens.antt =====
-- The tokens of lib/oauth/tokens and the methods of lib/oauth/consumer.rb that ask for them: the paths
-- and addresses among the options, `get_request_token`, `get_access_token`, `from_hash`, and the
-- text of a token. `CGI.parse` is Ruby's.
pub mod Authorize
pub mod Written
use oauth.Prelude.{
  ℕ, [], ◌∷◌, ◌++◌, Bool, true, false, ◌&&◌, ◌||◌, Option, none, some, Bytes, codes, bytes_eq, ◌==◌,
  leb, if◌then◌else◌, map, reverse,
}
use oauth.Params.{Value, str, Items, no_items, item, Params, lookup, store, merge}
use oauth.Outcome.{Outcome, ok, raise, type_error, invalid_uri}
use oauth.Helper.Escape.{escape}
use oauth.Consumer.{UriLib, Settings, Connection, RequestOptions, Response, Trace, create_http}
use oauth.Consumer.TokenRequest.{token_request}

-- `@@default_options`, its paths
abbrev pub default_options : Params (Option Bytes)
default_options =
    (codes "request_token_path", some (codes "/oauth/request_token"))
    ∷ (codes "authenticate_path", some (codes "/oauth/authenticate"))
    ∷ (codes "authorize_path", some (codes "/oauth/authorize"))
    ∷ (codes "access_token_path", some (codes "/oauth/access_token"))
    ∷ []

-- `@options`, of those that are given.
unfoldable pub options_of : Params (Option Bytes) → Params (Option Bytes)
options_of given = merge default_options given

unfoldable pub present : {A : Type 0} → Option A → Bool
present none = false
present (some a) = true

-- `@options[key]`, which is nil for a missing key
unfoldable pub option : Bytes → Params (Option Bytes) → Option Bytes
option key options = elim (lookup key options) [ none ↦ none | some v ↦ v ]

-- `site + path`
site_and : Bytes → Option Bytes → Outcome Bytes
site_and site none = raise type_error
site_and site (some path) = ok (site ++ path)

-- `@options[url_key] || (site + path)`
unfoldable pub url_or_path : Bytes → Option Bytes → Option Bytes → Outcome Bytes
unfolding site_and
url_or_path site (some url) path = ok url
url_or_path site none path = site_and site path

module _ (site : Bytes) (options : Params (Option Bytes)) where
  unfoldable pub request_token_url : Outcome Bytes
  unfolding url_or_path option
  request_token_url =
      url_or_path site (option (codes "request_token_url") options)
        (option (codes "request_token_path") options)

  unfoldable pub authenticate_url : Outcome Bytes
  unfolding url_or_path option
  authenticate_url =
      url_or_path site (option (codes "authenticate_url") options)
        (option (codes "authenticate_path") options)

  unfoldable pub authorize_url : Outcome Bytes
  unfolding url_or_path option
  authorize_url =
      url_or_path site (option (codes "authorize_url") options)
        (option (codes "authorize_path") options)

  unfoldable pub access_token_url : Outcome Bytes
  unfolding url_or_path option
  access_token_url =
      url_or_path site (option (codes "access_token_url") options)
        (option (codes "access_token_path") options)

  -- `(request_token_url? ? request_token_url : request_token_path)`
  unfoldable pub request_token_address : Outcome (Option Bytes)
  unfolding request_token_url option
  request_token_address =
      if present (lookup (codes "request_token_url") options)
      then elim request_token_url [ raise e ↦ raise e | ok url ↦ ok (some url) ]
      else ok (option (codes "request_token_path") options)

  -- `(access_token_url? ? access_token_url : access_token_path)`
  unfoldable pub access_token_address : Outcome (Option Bytes)
  unfolding access_token_url option
  access_token_address =
      if present (lookup (codes "access_token_url") options)
      then elim access_token_url [ raise e ↦ raise e | ok url ↦ ok (some url) ]
      else ok (option (codes "access_token_path") options)

-- White space and null, which `strip` removes at both ends.
unfoldable pub is_white : ℕ → Bool
is_white c = c == 0 || (leb 9 c && leb c 13) || c == 32

unfoldable pub lstrip : Bytes → Bytes
lstrip [] = []
lstrip (c ∷ text) = let rest = lstrip text in if is_white c then rest else c ∷ text

unfoldable pub strip : Bytes → Bytes
unfolding lstrip is_white
strip text = reverse (lstrip (reverse (lstrip text)))

-- `v.first`
unfoldable pub first_text : Items → Option Bytes
first_text no_items = none
first_text (item (str v) rest) = some v
first_text (item _ rest) = none

unfoldable pub stripped : Bytes × Items → Bytes × Option Bytes
unfolding strip first_text
stripped (k, v) = (strip k, first_text v)

-- The hash that `token_request` makes of a body; a symbol and a string that spell one key are one.
unfoldable pub token_fields : Params Items → Params (Option Bytes)
unfolding stripped
token_fields ps = merge [] (map stripped ps)

pub record ConsumerToken : Type 0 where
  pub token : Option Bytes
  pub secret : Option Bytes
  pub params : Params (Option Bytes)

unfoldable pub from_hash : Params (Option Bytes) → ConsumerToken
unfolding option
from_hash hash = record {
  token = option (codes "oauth_token") hash;
  secret = option (codes "oauth_token_secret") hash;
  params = hash;
}

-- `callback_confirmed?`
unfoldable pub callback_confirmed : ConsumerToken → Bool
unfolding option
callback_confirmed t = elim (option (codes "oauth_callback_confirmed") t.params) [
  | none ↦ false
  | some v ↦ bytes_eq v (codes "true")
]

-- `to_query`, of a token with its secret
unfoldable pub to_query : Bytes → Bytes → Bytes
unfolding escape
to_query token secret =
    codes "oauth_token=" ++ (escape token ++ (codes "&oauth_token_secret=" ++ escape secret))

-- `request_options[:oauth_callback] ||= OAuth::OUT_OF_BAND unless request_options[:exclude_callback]`
unfoldable pub callback_or_oob : RequestOptions → RequestOptions
callback_or_oob o =
    if present (lookup (codes "exclude_callback") o.other)
      || present (lookup (codes "oauth_callback") o.other)
    then o
    else record o { other = store (codes "oauth_callback") (codes "oob") o.other }

module _ {W : Type 0} (lib : UriLib) (settings : Settings) (options : Params (Option Bytes))
    (cgi_parse : Bytes → Params Items)
    -- signing with the token, if there is one, and sending
    (send : Option ConsumerToken
      → W
      → Connection
      → Bytes
      → RequestOptions
      → W × Outcome Response) where
  unfoldable pub token_of : Trace W × Outcome Bytes → Trace W × Outcome ConsumerToken
  token_of (t, raise e) = (t, raise e)
  token_of (t, ok body) = (t, ok (from_hash (token_fields (cgi_parse body))))

  -- A request for nil connects to the site, and cannot parse it.
  no_path : Trace W → Outcome Connection → Trace W × Outcome ConsumerToken
  no_path t (raise e) = (t, raise e)
  no_path t (ok c) = (record t { http = some c }, raise invalid_uri)

  unfoldable pub get_token :
      ℕ
      → Option ConsumerToken
      → Trace W
      → Outcome (Option Bytes)
      → RequestOptions
      → Option (Trace W × Outcome ConsumerToken)
  unfolding token_of no_path from_hash token_fields
  get_token fuel signer t (raise e) o = some (t, raise e)
  get_token fuel signer t (ok none) o =
      some (no_path t (create_http lib settings (send signer) none))
  get_token fuel signer t (ok (some path)) o =
      elim (token_request lib settings (send signer) fuel t path o) [
        | none ↦ none
        | some answer ↦ some (token_of answer)
      ]

  -- `get_request_token` without a block
  unfoldable pub get_request_token :
      ℕ → Trace W → RequestOptions → Option (Trace W × Outcome ConsumerToken)
  unfolding get_token request_token_address callback_or_oob
  get_request_token fuel t o =
      get_token fuel none t (request_token_address settings.site options) (callback_or_oob o)

  -- `get_access_token` of a request token
  unfoldable pub get_access_token :
      ℕ → ConsumerToken → Trace W → RequestOptions → Option (Trace W × Outcome ConsumerToken)
  unfolding get_token access_token_address
  get_access_token fuel token t o =
      get_token fuel (some token) t (access_token_address settings.site options) o
