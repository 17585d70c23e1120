-- ===== src/RequestProxy/Rack.antt =====
-- lib/oauth/request_proxy/rack_request.rb, with `header_params` of request_proxy/base.rb. What Rack
-- parses of the query and of the form are fields of the request.
use oauth.Prelude.{
  List, [], ◌∷◌, Bool, false, Option, none, some, Bytes, codes, bytes_eq, if◌then◌else◌, take, map,
}
use oauth.Prelude.Lines.{some_line_starts}
use oauth.Params.{Value, str, Params, lookup, merge, select}
use oauth.Outcome.{Outcome, ok, ◌>>=◌}
use oauth.Helper.Header.{parse_header}
use oauth.RequestProxy.{Proxy}
use oauth.RequestProxy.NetHttp.{form_type}

pub record RackRequest : Type 0 where
  pub env : Params Bytes
  pub original_method : Option Bytes
  pub request_method : Bytes
  pub url : Bytes
  pub content_type : Option Bytes
  pub query : Params Value
  pub form : Params Value

abbrev pub header_names : List Bytes
header_names =
    codes "X-HTTP_AUTHORIZATION" ∷ codes "Authorization" ∷ codes "HTTP_AUTHORIZATION" ∷ []

-- `/^oauth_/`
unfoldable pub is_oauth_key : Bytes → Bool
unfolding some_line_starts
is_oauth_key k = some_line_starts (codes "oauth_") k

unfoldable pub oauth_fields : Outcome (Params Bytes) → Outcome (Params Bytes)
unfolding select is_oauth_key
oauth_fields parsed = parsed >>= λ params. ok (select (λ k v. is_oauth_key k) params)

unfoldable pub header_from : Option Bytes → Outcome (Params Bytes) → Outcome (Params Bytes)
unfolding bytes_eq oauth_fields parse_header
header_from none rest = rest
header_from (some header) rest =
    if bytes_eq (take 6 header) (codes "OAuth ") then oauth_fields (parse_header header) else rest

-- The headers in turn, up to the first one that is OAuth's.
unfoldable pub headers_from : List Bytes → Params Bytes → Outcome (Params Bytes)
unfolding header_from lookup
headers_from [] env = ok []
headers_from (name ∷ names) env =
    let rest = headers_from names env in header_from (lookup name env) rest

unfoldable pub header_params : RackRequest → Outcome (Params Bytes)
unfolding headers_from
header_params r = headers_from header_names r.env

unfoldable pub request_params : RackRequest → Params Value
unfolding form_type
request_params r = if form_type r.content_type then r.form else []

unfoldable pub as_string : Bytes × Bytes → Bytes × Value
as_string (k, v) = (k, str v)

unfoldable pub as_strings : Params Bytes → Params Value
unfolding as_string
as_strings = map as_string

unfoldable pub rack_parameters : RackRequest → Outcome (Params Value)
unfolding header_params request_params merge as_strings
rack_parameters r =
    header_params r >>= λ header. ok (merge (merge (request_params r) r.query) (as_strings header))

unfoldable pub method_or : Option Bytes → Bytes → Bytes
method_or none name = name
method_or (some original) name = original

-- The proxy, without the options `clobber_request` and `parameters`.
unfoldable pub rack_proxy : RackRequest → List Bytes → Outcome Proxy
unfolding rack_parameters method_or
rack_proxy r unsigned_parameters = rack_parameters r >>= λ params. ok (record {
  method = method_or r.original_method r.request_method;
  uri = r.url;
  parameters = params;
  unsigned_parameters = unsigned_parameters;
  signed = false;
  is_mock = false;
})
