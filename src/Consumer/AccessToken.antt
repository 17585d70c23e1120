-- ===== src/Consumer/AccessToken.antt =====
-- `uri` of lib/oauth/consumer.rb and `request` of lib/oauth/tokens/access_token.rb, with that of
-- consumer_token.rb: a request for another address than the site's, after which the consumer is
-- connected to its site again. The equality of URIs is Ruby's.
pub mod Reset
use oauth.Prelude.{[], Bool, not, ◌&&◌, false, true, Option, none, some, Bytes, if◌then◌else◌}
use oauth.Uri.{Uri}
use oauth.Outcome.{Outcome, ok, raise}
use oauth.Consumer.{
  UriLib, Settings, Connection, RequestOptions, Response, Trace, parsed, create_http, request,
}

-- The consumer with its `@uri`.
pub record Held (W : Type 0) : Type 0 where
  pub trace : Trace W
  pub uri : Option Uri

-- The options `{}` that a token passes on.
unfoldable pub no_options : RequestOptions
no_options = record {
  token_request = false;
  redirect_count = none;
  max_redirects = none;
  cross_origin_redirects = none;
  other = [];
}

unfoldable pub is_absolute : Uri → Bool
is_absolute u = elim u.scheme [ none ↦ false | some s ↦ true ]

-- `ensure`: what it does comes last, and its own exception counts.
unfoldable pub ensured : {A B S : Type 0} → Outcome A → S × Outcome B → S × Outcome A
ensured answer (s, raise e) = (s, raise e)
ensured answer (s, ok b) = (s, answer)

module _ {W : Type 0} (lib : UriLib) (uri_eq : Uri → Uri → Bool) (settings : Settings)
    (send : W → Connection → Bytes → RequestOptions → W × Outcome Response) where
  set_http : Held W → Outcome Connection → Held W × Outcome Connection
  set_http h (raise e) = (h, raise e)
  set_http h (ok c) = (record h { trace = record h.trace { http = some c } }, ok c)

  -- `uri(custom_uri)`
  unfoldable pub set_uri : Uri → Held W → Held W × Outcome Connection
  unfolding set_http
  set_uri custom_uri h =
      set_http (record h { uri = some custom_uri }) (create_http lib settings send none)

  -- `@uri ||= URI.parse(site)`
  found_uri : Held W → Outcome Uri → Held W × Outcome Uri
  found_uri h (raise e) = (h, raise e)
  found_uri h (ok u) = (record h { uri = some u }, ok u)

  -- `uri` without an argument
  unfoldable pub get_uri : Held W → Held W × Outcome Uri
  unfolding found_uri parsed
  get_uri h = elim h.uri [
    | some u ↦ (h, ok u)
    | none ↦ found_uri h (parsed (lib.parse settings.site))
  ]

  -- `request` of the superclass
  unfoldable pub token_request_over : Bytes → Held W → Held W × Outcome Response
  unfolding no_options
  token_request_over path h =
      let (t, rsp) = request lib settings send h.trace path no_options in
      (record h { trace = t }, rsp)

  -- The body of the `begin`, behind `consumer.uri(request_uri)`.
  after_uri : Bytes → Held W × Outcome Connection → Held W × Outcome Response
  after_uri path (h, raise e) = (h, raise e)
  after_uri path (h, ok c) = token_request_over path h

  -- The branch in which the service is another.
  unfoldable pub request_elsewhere : Uri → Uri → Bytes → Held W → Held W × Outcome Response
  unfolding after_uri ensured
  request_elsewhere request_uri site_uri path h =
      let (h', answer) = after_uri path (set_uri request_uri h) in
      ensured answer (set_uri site_uri h')

  -- `request_uri.absolute? && request_uri != site_uri`
  unfoldable pub is_service_uri_different : Uri → Uri → Bool
  unfolding is_absolute
  is_service_uri_different request_uri site_uri =
      is_absolute request_uri && not (uri_eq request_uri site_uri)

  request_by_uri : Uri → Bytes → Held W × Outcome Uri → Held W × Outcome Response
  request_by_uri request_uri path (h, raise e) = (h, raise e)
  request_by_uri request_uri path (h, ok site_uri) =
      let elsewhere = request_elsewhere request_uri site_uri path h in
      let here = token_request_over path h in
      if is_service_uri_different request_uri site_uri then elsewhere else here

  access_by : Bytes → Held W → Outcome Uri → Held W × Outcome Response
  access_by path h (raise e) = (h, raise e)
  access_by path h (ok request_uri) = request_by_uri request_uri path (get_uri h)

  -- `request` of an access token
  unfoldable pub access_request : Bytes → Held W → Held W × Outcome Response
  unfolding access_by request_by_uri parsed
  access_request path h = access_by path h (parsed (lib.parse path))
