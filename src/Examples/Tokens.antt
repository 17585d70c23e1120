-- ===== src/Examples/Tokens.antt =====
-- Inputs for lib/oauth/tokens: requests of an access token, to the site and to other addresses.
use mathlib.Core.Option
use mathlib.Core.Option.{some-injective, none-ne-some}
use oauth.Prelude.{
  ℕ, zero, suc, ◌≡◌, refl, sym, ap, ◌∙◌, List, [], ◌∷◌, Bool, true, false, ◌&&◌, Option, none, some,
  Bytes, codes, bytes_eq, bytes_eq_sound, bytes_ne, arith, ◌==◌, ==_iff, drop,
}
use oauth.Prelude.Ascii.{downcase}
use oauth.Prelude.Lines.{start_with, some_line_starts}
use oauth.Prelude.Split.{is_byte, split_by}
use oauth.Uri.{Uri}
use oauth.Outcome.{Outcome, ok, raise, http_error}
use oauth.Consumer.{
  UriLib, Settings, Connection, RequestOptions, Response, Trace, connect, http, request,
  check_problem, create_http, http_uri, connection_to, slash_first,
}
use oauth.Consumer.AccessToken.{
  Held, access_request, no_options, get_uri, set_uri, request_elsewhere, is_service_uri_different,
}
use oauth.Params.{Params, lookup, merge}
use oauth.Client.{shown}
use oauth.Examples.Queries.{read_items, items_read}
use oauth.Consumer.Tokens.{
  ConsumerToken, strip, options_of, request_token_address, access_token_address, present,
  get_request_token, get_access_token,
}
use oauth.Consumer.Tokens.Written.{answer_body, IsTold, client_token, get_tokens-written}
use oauth.Consumer.AccessToken.Reset.{SameConnection, access_requests, connect-access_requests}

abbrev with_host : List Bytes → Uri
with_host [] = record {
  scheme = some (codes "https");
  host = none;
  port = some 443;
  path = none;
  query = none;
}
with_host (host ∷ parts) = record {
  scheme = some (codes "https");
  host = some host;
  port = some 443;
  path = some (codes "/list");
  query = none;
}

abbrev path_alone : Bytes → Uri
path_alone text = record { scheme = none; host = none; port = none; path = some text; query = none }

-- A reader of addresses with a host, and of paths.
abbrev read_by : Bool → Bytes → Uri
read_by true text = with_host (split_by (is_byte b'/') (drop 8 text))
read_by false text = path_alone text

abbrev hosts_lib : UriLib
hosts_lib = record {
  parse = λ text. some (read_by (start_with text (codes "https://")) text);
  join = λ base text. some (path_alone text);
  to_s = λ u. codes "https://api.example/list";
  request_uri = λ u. codes "/list";
}

abbrev same_by : {A : Type 0} → (A → A → Bool) → Option A → Option A → Bool
same_by eq none none = true
same_by eq (some a) (some b) = eq a b
same_by eq _ _ = false

same_by-map :
    {A B : Type 0} (eq : A → A → Bool) (f : A → B)
    → ((a b : A) → eq a b ≡ true → f a ≡ f b)
    → (x y : Option A) → same_by eq x y ≡ true
    → Option.map f x ≡ Option.map f y
same_by-map eq f sound none none e = refl
same_by-map eq f sound none (some b) e = cc
same_by-map eq f sound (some a) none e = cc
same_by-map eq f sound (some a) (some b) e = ap some (sound a b e)

same_by-eq :
    {A : Type 0} (eq : A → A → Bool)
    → ((a b : A) → eq a b ≡ true → a ≡ b)
    → (x y : Option A) → same_by eq x y ≡ true
    → x ≡ y
same_by-eq eq sound none none e = refl
same_by-eq eq sound none (some b) e = cc
same_by-eq eq sound (some a) none e = cc
same_by-eq eq sound (some a) (some b) e = ap some (sound a b e)

abbrev same_name : Bytes → Bytes → Bool
same_name a b = bytes_eq (downcase a) (downcase b)

-- Equal by scheme, host and port.
abbrev same_uri : Uri → Uri → Bool
same_uri u v =
    same_by same_name u.host v.host
    && same_by (λ a b. a == b) u.port v.port
    && same_by bytes_eq u.scheme v.scheme

and3 : (a b c : Bool) → (a && b && c) ≡ true → (a ≡ true) × (b ≡ true) × (c ≡ true)
and3 true true true e = (refl, refl, refl)
and3 true true false e = cc
and3 true false c e = cc
and3 false b c e = cc

same_uri-SameConnection :
    (u v : Uri) → same_uri u v ≡ true → SameConnection (connection_to u) (connection_to v)
unfolding connection_to
same_uri-SameConnection u v e =
    let (hosts, ports, schemes) = and3 _ _ _ e in
    (
      same_by-map same_name downcase (λ a b. bytes_eq_sound (downcase a) (downcase b)) u.host v.host
          hosts,
      same_by-eq (λ a b. a == b) (λ a b. (==_iff a b).0) u.port v.port ports,
      ap (λ scheme. (connection_to (record u { scheme = scheme })).use_ssl)
          (same_by-eq bytes_eq bytes_eq_sound u.scheme v.scheme schemes),
    )

with_host-scheme : (parts : List Bytes) → (with_host parts).scheme ≡ some (codes "https")
with_host-scheme [] = refl
with_host-scheme (host ∷ parts) = refl

read_by-relative :
    (full : Bool) (text : Bytes)
    → (read_by full text).scheme ≡ none
    → (read_by full text).host ≡ none
read_by-relative true text e =
    absurd (none-ne-some _ (sym e ∙ with_host-scheme (split_by (is_byte b'/') (drop 8 text))))
read_by-relative false text e = refl

hosts_lib-slash :
    (text host : Bytes) (u : Uri)
    → hosts_lib.parse text ≡ some u
    → u.scheme ≡ none
    → u.host ≡ some host
    → slash_first text ≡ true
hosts_lib-slash text host u is_u is_scheme is_host = absurd (
    none-ne-some host (
      sym (
        read_by-relative (start_with text (codes "https://")) text
          (ap (λ u. u.scheme) (some-injective _ u is_u) ∙ is_scheme))
      ∙ ap (λ u. u.host) (some-injective _ u is_u)
      ∙ is_host))

abbrev api_settings : Settings
api_settings = record {
  site = codes "https://api.example";
  request_endpoint = none;
  token_request_max_redirects = some 10;
  token_request_cross_origin_redirects = false;
}

abbrev to_api : Connection
to_api = record { host = some (codes "api.example"); port = some 443; use_ssl = true }

-- The first request fails.
abbrev fail_once : ℕ → Connection → Bytes → RequestOptions → ℕ × Outcome Response
fail_once zero c path o = (1, raise (http_error 500))
fail_once (suc n) c path o =
    (suc (suc n), ok (record { code = 200; location = none; www_authenticate = none; body = [] }))

abbrev new_consumer : Held ℕ
new_consumer = record { trace = record { world = 0; http = none; sent = [] }; uri = none }

abbrev visited : List Bytes
visited =
    codes "https://photos.example/list"
    ∷ codes "/people"
    ∷ codes "https://API.example"
    ∷ codes "https://photos.example/list"
    ∷ []

to_api_home : create_http hosts_lib api_settings fail_once none ≡ ok to_api
unfolding create_http http_uri connection_to bytes_eq start_with split_by
to_api_home = refl

connect-access_requests_example :
    (c : Connection) × (connect hosts_lib api_settings fail_once
        (access_requests hosts_lib same_uri api_settings fail_once to_api to_api_home
          same_uri-SameConnection hosts_lib-slash visited new_consumer).trace.http
        (codes "/people")
      ≡ (some c, ok (c, codes "/people")))
    × SameConnection c to_api
unfolding some_line_starts
connect-access_requests_example =
    connect-access_requests hosts_lib same_uri api_settings fail_once to_api to_api_home
      same_uri-SameConnection hosts_lib-slash visited new_consumer (codes "/people")
      (tt, λ u e. absurd (cc)) refl

abbrev to_photos : Connection
to_photos = record { host = some (codes "photos.example"); port = some 443; use_ssl = true }

-- After a request of the consumer itself, the connection of the other address stays.
photos_kept :
    (connect hosts_lib api_settings fail_once
      (request hosts_lib api_settings fail_once new_consumer.trace
        (codes "https://photos.example/list")
        no_options).0.http
      (codes "/people")).1
    ≡ ok (to_photos, codes "/people")
unfolding connect some_line_starts http request create_http http_uri connection_to bytes_eq split_by
photos_kept = refl

-- After one of an access token, which fails, it is gone.
photos_reset :
    (access_request hosts_lib same_uri api_settings fail_once
      (codes "https://photos.example/list")
      new_consumer).0.trace.http
    ≡ some to_api
unfolding access_request request create_http http_uri connection_to bytes_eq get_uri
    is_service_uri_different start_with split_by downcase request_elsewhere set_uri
photos_reset = refl

-- A server that answers a request of a request token, and then of an access token, with a token.
abbrev confirmed : Params Bytes
confirmed = (codes "oauth_callback_confirmed", codes "true") ∷ []

abbrev answered_by : Bytes → Response
answered_by body = record { code = 200; location = none; www_authenticate = none; body = body }

abbrev token_server :
    Option ConsumerToken → ℕ → Connection → Bytes → RequestOptions → ℕ × Outcome Response
token_server none n c path o =
    (suc n, ok (answered_by (answer_body (codes "request t") (codes "s1") confirmed)))
token_server (some signer) n c path o =
    (suc n, ok (answered_by (answer_body (codes "access") (shown signer.token) [])))

abbrev requested : Trace ℕ
requested = record {
  world = 1;
  http = some to_api;
  sent = (to_api, codes "/oauth/request_token") ∷ [];
}

abbrev accessed : Trace ℕ
accessed = record {
  world = 2;
  http = some to_api;
  sent = (to_api, codes "/oauth/request_token") ∷ (to_api, codes "/oauth/access_token") ∷ [];
}

request-IsTold : IsTold (codes "request t") (codes "s1") confirmed
unfolding bytes_eq strip
request-IsTold = (
  ((bytes_ne _ _ refl, (bytes_ne _ _ refl, tt)), ((bytes_ne _ _ refl, tt), (tt, tt))),
  omega arith,
  (refl, tt),
)

access-IsTold : IsTold (codes "access") (codes "request t") []
unfolding bytes_eq
access-IsTold = (((bytes_ne _ _ refl, tt), (tt, tt)), omega arith, tt)

get_tokens-written_example :
    (get_request_token hosts_lib api_settings
        (options_of [])
        read_items
        token_server
        1
        new_consumer.trace
        no_options
      ≡ some (requested, ok (client_token (codes "request t") (codes "s1") confirmed)))
    × (get_access_token hosts_lib api_settings
          (options_of [])
          read_items
          token_server
          1
          (client_token (codes "request t") (codes "s1") confirmed)
          requested
          no_options
        ≡ some (accessed, ok (client_token (codes "access") (codes "request t") [])))
unfolding request_token_address present lookup options_of merge bytes_eq access_token_address
    request connect some_line_starts http split_by check_problem shown
get_tokens-written_example =
    get_tokens-written hosts_lib api_settings (options_of []) read_items token_server items_read 0 0
      new_consumer.trace requested accessed (codes "/oauth/request_token")
      (codes "/oauth/access_token") no_options no_options (codes "request t") (codes "s1") confirmed
      (codes "access") (codes "request t") [] refl refl request-IsTold access-IsTold
      (answered_by (answer_body (codes "request t") (codes "s1") confirmed), refl, refl, refl)
      (answered_by (answer_body (codes "access") (codes "request t") []), refl, refl, refl)
