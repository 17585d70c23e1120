-- ===== src/Examples/Consumers.antt =====
-- Inputs for lib/oauth/consumer.rb: a server that redirects once, within its origin.
use oauth.Prelude.{
  ℕ, zero, suc, ◌≡◌, refl, [], ◌∷◌, true, false, Option, none, some, Bytes, codes, bytes_eq, arith,
}
use oauth.Prelude.Lines.{start_with, some_line_starts}
use oauth.Prelude.Ascii.{downcase}
use oauth.Uri.{Uri}
use oauth.Outcome.{Outcome, ok}
use oauth.Consumer.{
  UriLib, Settings, Connection, RequestOptions, Response, Trace, connect, http, request,
  check_problem, create_http, http_uri, connection_to,
}
use oauth.Consumer.TokenRequest.{
  token_request, token_request_max_redirects, after_request, after_response, after_redirect,
  token_request_uri, token_request_redirect_uri, follow, decide, count_or_zero,
  token_request_cross_origin, token_request_cross_origin_redirects, token_request_effective_port,
  token_request_redirect_path,
}
use oauth.Consumer.TokenRequest.Redirects.{token_request-Over, Over}
use oauth.Consumer.TokenRequest.Total.{token_request-Ends, Ends}

abbrev at_site : Bytes → Uri
at_site path = record {
  scheme = some (codes "https");
  host = some (codes "api.example");
  port = some 443;
  path = some path;
  query = none;
}

abbrev path_of : Option Bytes → Bytes
path_of none = codes "/"
path_of (some p) = codes "/token2"

abbrev site_lib : UriLib
site_lib = record {
  parse = λ text. some (at_site text);
  join = λ base text. some (at_site text);
  to_s = λ u. codes "https://api.example/token2";
  request_uri = λ u. path_of u.path;
}

path_of-slash : (p : Option Bytes) → start_with (path_of p) (codes "/") ≡ true
unfolding start_with
path_of-slash none = refl
path_of-slash (some p) = refl

site_lib-slash : (u : Uri) → start_with (site_lib.request_uri u) (codes "/") ≡ true
site_lib-slash u = path_of-slash u.path

abbrev site_settings : Settings
site_settings = record {
  site = codes "https://api.example";
  request_endpoint = none;
  token_request_max_redirects = some 10;
  token_request_cross_origin_redirects = false;
}

abbrev to_site : Connection
to_site = record { host = some (codes "api.example"); port = some 443; use_ssl = true }

-- The state of the world counts the requests.
abbrev redirect_once : ℕ → Connection → Bytes → RequestOptions → ℕ × Outcome Response
redirect_once zero c path o = (
  1,
  ok (record { code = 302; location = some (codes "/token2"); www_authenticate = none; body = [] }),
)
redirect_once (suc n) c path o = (
  2,
  ok (record {
    code = 200;
    location = none;
    www_authenticate = none;
    body = codes "oauth_token=t";
  }),
)

abbrev no_request : Trace ℕ
no_request = record { world = 0; http = none; sent = [] }

abbrev plain_options : RequestOptions
plain_options = record {
  token_request = false;
  redirect_count = none;
  max_redirects = none;
  cross_origin_redirects = none;
  other = [];
}

token_request-Ends_example :
    Ends site_lib site_settings redirect_once
      (token_request site_lib site_settings redirect_once 12 no_request
        (codes "/token")
        plain_options)
      11
unfolding token_request_max_redirects count_or_zero
token_request-Ends_example =
    token_request-Ends site_lib site_settings redirect_once 12 no_request (codes "/token")
      plain_options (omega arith)

-- Both requests went over the connection to the site.
abbrev redirected_once : Trace ℕ
redirected_once = record {
  world = 2;
  http = some to_site;
  sent = (to_site, codes "/token") ∷ (to_site, codes "/token2") ∷ [];
}

run_once :
    token_request site_lib site_settings redirect_once 12 no_request (codes "/token") plain_options
    ≡ some (redirected_once, ok (codes "oauth_token=t"))
unfolding token_request after_request after_response after_redirect token_request_uri
    token_request_redirect_uri follow decide token_request_max_redirects count_or_zero
    token_request_cross_origin token_request_cross_origin_redirects token_request_effective_port
    token_request_redirect_path downcase bytes_eq connect some_line_starts http request
    check_problem create_http http_uri connection_to
run_once = refl

token_request-Over_example :
    Over site_lib site_settings redirect_once site_lib-slash to_site redirected_once
unfolding token_request_cross_origin_redirects connect some_line_starts http create_http http_uri
    connection_to bytes_eq
token_request-Over_example =
    token_request-Over site_lib site_settings redirect_once site_lib-slash to_site 12 no_request
      (codes "/token") plain_options refl refl tt run_once
