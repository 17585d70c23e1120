-- ===== src/RequestProxy/SignedUri.antt =====
-- `signed_uri` and `oauth_header` of lib/oauth/request_proxy/base.rb: two ways to carry the
-- parameters of a request that has been signed.
pub mod Reordered
pub mod Verified
use mathlib.Core.Option
use oauth.Prelude.{[], ◌∷◌, ◌++◌, Bool, true, false, Option, none, some, Bytes, if◌then◌else◌}
use oauth.Params.{Value, str, Params}
use oauth.Outcome.{Outcome, ok, ◌>>=◌}
use oauth.Helper.Header.{header_text}
use oauth.RequestProxy.{Proxy, normalize_or_raise, oauth_parameters, non_oauth_parameters}

unfoldable pub carried : Bool → Proxy → Params Value
unfolding non_oauth_parameters
carried with_oauth p = if with_oauth then p.parameters else non_oauth_parameters p

-- `[uri, normalize(params)].join("?")`
unfoldable pub uri_and_query : Bytes → Outcome Bytes → Outcome (Option Bytes)
uri_and_query uri query = query >>= λ text. ok (some (uri ++ b'?' ∷ text))

-- `signed_uri`; a request that is not signed gives nil, behind a warning.
unfoldable pub signed_uri : Bool → Proxy → Outcome (Option Bytes)
unfolding carried uri_and_query normalize_or_raise
signed_uri with_oauth p =
    if p.signed then uri_and_query p.uri (normalize_or_raise (carried with_oauth p)) else ok none

-- Parameters that are strings; `to_s` of an array or a hash is not modelled.
unfoldable pub string_values : Params Value → Option (Params Bytes)
string_values [] = some []
string_values ((k, str v) ∷ rest) = Option.map (λ ps. (k, v) ∷ ps) (string_values rest)
string_values ((k, _) ∷ rest) = none

-- `oauth_header`, with `options[:realm]`
unfoldable pub oauth_header : Option Bytes → Proxy → Option Bytes
unfolding oauth_parameters string_values header_text
oauth_header realm p = Option.map (header_text realm) (string_values (oauth_parameters p))
