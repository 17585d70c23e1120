-- ===== src/Consumer.antt =====
-- Class `Consumer` of lib/oauth/consumer.rb: its settings, its connection, and `request`. Ruby's `uri`
-- and what is sent over the connection are arguments.
pub mod AccessToken
pub mod TokenRequest
pub mod Tokens
use oauth.Prelude.{
  ℕ, List, [], ◌∷◌, ◌++◌, Bool, true, false, Option, none, some, Bytes, codes, bytes_eq,
  if◌then◌else◌,
}
use oauth.Prelude.Lines.{some_line_starts, include_text, start_with}
use oauth.Params.{Params, lookup, delete}
use oauth.Uri.{Uri}
use oauth.Outcome.{Outcome, ok, raise, problem, invalid_uri, ◌>>=◌}
use oauth.Helper.Header.{parse_header}

-- Ruby's `uri`: `URI.parse`, `merge`, `to_s` and `request_uri`; `none` is its InvalidURIError.
pub record UriLib : Type 0 where
  pub parse : Bytes → Option Uri
  pub join : Uri → Bytes → Option Uri
  pub to_s : Uri → Bytes
  pub request_uri : Uri → Bytes

-- The options that choose where a request goes.
pub record Settings : Type 0 where
  pub site : Bytes
  pub request_endpoint : Option Bytes
  pub token_request_max_redirects : Option ℕ
  pub token_request_cross_origin_redirects : Bool

-- What a `Net::HTTP` object is connected to.
pub record Connection : Type 0 where
  pub host : Option Bytes
  pub port : Option ℕ
  pub use_ssl : Bool

-- The options of one request: those of a token request, and the rest.
pub record RequestOptions : Type 0 where
  pub token_request : Bool
  pub redirect_count : Option ℕ
  pub max_redirects : Option ℕ
  pub cross_origin_redirects : Option Bool
  pub other : Params Bytes

pub record Response : Type 0 where
  pub code : ℕ
  pub location : Option Bytes
  pub www_authenticate : Option (List Bytes)
  pub body : Bytes

-- What a request leaves behind: the connection, and what was sent over which one, the latest last.
pub record Trace (W : Type 0) : Type 0 where
  pub world : W
  pub http : Option Connection
  pub sent : List (Connection × Bytes)

-- `return` of a parse that may fail
unfoldable pub parsed : Option Uri → Outcome Uri
parsed none = raise invalid_uri
parsed (some u) = ok u

is_https : Option Bytes → Bool
is_https none = false
is_https (some scheme) = bytes_eq scheme (codes "https")

-- The connection to a URI.
unfoldable pub connection_to : Uri → Connection
unfolding is_https
connection_to u = record { host = u.host; port = u.port; use_ssl = is_https u.scheme }

-- A text that begins with a slash: `url[0] =~ %r{^/}`.
unfoldable pub slash_first : Bytes → Bool
slash_first url = start_with url (codes "/")

-- The lines of `headers.grep(/^OAuth /)`.
unfoldable pub oauth_lines : List Bytes → List Bytes
unfolding some_line_starts
oauth_lines [] = []
oauth_lines (h ∷ hs) =
    if some_line_starts (codes "OAuth ") h then h ∷ oauth_lines hs else oauth_lines hs

-- `raise OAuth::Problem.new(params.delete("oauth_problem"), rsp, params)`
raise_problem : Params Bytes → Outcome Response
raise_problem params =
    raise (problem (lookup (codes "oauth_problem") params) (delete (codes "oauth_problem") params))

-- The test for the Problem Reporting extension on the lines of the header.
check_lines : List Bytes → Response → Outcome Response
check_lines [] rsp = ok rsp
check_lines (h ∷ hs) rsp =
    if include_text (codes "oauth_problem") h then parse_header h >>= raise_problem else ok rsp

unfoldable pub check_problem : Response → Outcome Response
unfolding oauth_lines check_lines include_text raise_problem
check_problem rsp = elim rsp.www_authenticate [
  | none ↦ ok rsp
  | some headers ↦ check_lines (oauth_lines headers) rsp
]

-- `"#{uri.path}#{"?#{uri.query}" if uri.query}"`
unfoldable pub path_and_query : Uri → Bytes
path_and_query u =
    elim u.path [ none ↦ [] | some p ↦ p ] ++ elim u.query [ none ↦ [] | some q ↦ b'?' ∷ q ]

module _ {W : Type 0} (lib : UriLib) (settings : Settings)
    -- signing and sending: the state of the world, the connection, the path and the options
    (send : W → Connection → Bytes → RequestOptions → W × Outcome Response) where
  -- The URI that `create_http` connects to: the endpoint's, if one is set, else that of the URL with
  -- a host, else that of the site.
  unfoldable pub http_uri : Option Bytes → Outcome Uri
  unfolding slash_first parsed
  http_uri none = parsed (lib.parse settings.site)
  http_uri (some url) =
      if slash_first url
      then parsed (lib.parse settings.site)
      else parsed (lib.parse url) >>= λ u. elim u.host [
        | none ↦ parsed (lib.parse settings.site)
        | some h ↦ ok u
      ]

  -- `url = request_endpoint unless request_endpoint.nil?`
  unfoldable pub endpoint_or : Option Bytes → Option Bytes
  endpoint_or url = elim settings.request_endpoint [ none ↦ url | some e ↦ some e ]

  unfoldable pub create_http : Option Bytes → Outcome Connection
  unfolding http_uri endpoint_or connection_to
  create_http url = http_uri (endpoint_or url) >>= λ u. ok (connection_to u)

  -- `@http ||= create_http`
  unfoldable pub http : Option Connection → Outcome Connection
  unfolding create_http
  http (some c) = ok c
  http none = create_http none

  -- A path goes over the connection at hand.
  unfoldable pub over_path :
      Option Connection
      → Bytes
      → Outcome Connection
      → Option Connection × Outcome (Connection × Bytes)
  over_path old path (raise e) = (old, raise e)
  over_path old path (ok c) = (some c, ok (c, path))

  -- A URL opens a connection, and its path is sent.
  unfoldable pub over_url :
      Option Connection
      → Bytes
      → Outcome Connection
      → Option Connection × Outcome (Connection × Bytes)
  over_url old url (raise e) = (old, raise e)
  over_url old url (ok c) = (some c, parsed (lib.parse url) >>= λ u. ok (c, path_and_query u))

  -- The choice by `%r{^/} =~ path`. The first part is `@http` afterwards.
  unfoldable pub connect :
      Option Connection → Bytes → Option Connection × Outcome (Connection × Bytes)
  unfolding over_path over_url
  connect old path =
      if some_line_starts (codes "/") path
      then over_path old path (http old)
      else over_url old path (create_http (some path))

  -- The part of `request` behind the choice of the connection.
  unfoldable pub send_over :
      Trace W → RequestOptions → Connection × Bytes → Trace W × Outcome Response
  send_over t o (c, p) =
      let (w, rsp) = send t.world c p o in
      (record t { world = w; sent = t.sent ++ (c, p) ∷ [] }, rsp >>= check_problem)

  unfoldable pub request_to :
      Trace W → RequestOptions → Outcome (Connection × Bytes) → Trace W × Outcome Response
  request_to t o (raise e) = (t, raise e)
  request_to t o (ok cp) = send_over t o cp

  -- `request` without a block.
  unfoldable pub request : Trace W → Bytes → RequestOptions → Trace W × Outcome Response
  unfolding request_to send_over
  request t path o =
      let (h, target) = connect t.http path in request_to (record t { http = h }) o target
