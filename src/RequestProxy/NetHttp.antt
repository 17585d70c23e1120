-- ===== src/RequestProxy/NetHttp.antt =====
-- lib/oauth/request_proxy/net_http.rb: what a request of Net::HTTP is to the library. `URI.parse` and
-- `CGI.parse` are Ruby's and enter as arguments.
use oauth.Prelude.{
  List, [], ◌∷◌, ◌++◌, Bool, false, ◌&&◌, ◌||◌, Option, none, some, Bytes, codes, bytes_eq,
  if◌then◌else◌, take, map,
}
use oauth.Prelude.Ascii.{downcase, same_case}
use oauth.Prelude.Lines.{start_with}
use oauth.Prelude.Split.{join}
use oauth.Params.{Value, null, str, arr, Items, no_items, item, Params, lookup, store}
use oauth.Uri.{Uri}
use oauth.Outcome.{Outcome, ok, raise, invalid_uri, ◌>>=◌}
use oauth.RequestProxy.{Proxy}

pub record HttpRequest : Type 0 where
  pub method : Bytes
  pub path : Bytes
  pub content_type : Option Bytes
  pub authorization : Option Bytes
  pub body : Option Bytes

-- The entries of the options hash that the proxy reads.
pub record ProxyOptions : Type 0 where
  pub uri : Bytes
  pub parameters : Params (Option Bytes)
  pub unsigned_parameters : List Bytes

unfoldable pub form_type : Option Bytes → Bool
unfolding start_with downcase
form_type none = false
form_type (some type) = start_with (downcase type) (codes "application/x-www-form-urlencoded")

unfoldable pub form_url_encoded : HttpRequest → Bool
unfolding form_type
form_url_encoded r = form_type r.content_type

unfoldable pub oauth_text : Option Bytes → Option Bytes
oauth_text none = none
oauth_text (some text) = if bytes_eq (take 5 text) (codes "OAuth") then some text else none

unfoldable pub auth_header_params : HttpRequest → Option Bytes
unfolding oauth_text bytes_eq
auth_header_params r = oauth_text r.authorization

-- `compact`
unfoldable pub compact : List (Option Bytes) → List Bytes
compact [] = []
compact (none ∷ texts) = compact texts
compact (some text ∷ texts) = text ∷ compact texts

-- `request_params[k] << v`
unfoldable pub append_item : Items → Value → Items
append_item no_items v = item v no_items
append_item (item w xs) v = item w (append_item xs v)

unfoldable pub value_of : Option Bytes → Value
value_of none = null
value_of (some text) = str text

-- A parameter of the options: it is appended where the request has its key, and it is not nil.
unfoldable pub added : Bytes → Option Bytes → Option Items → Params Items → Params Items
unfolding append_item value_of
added k (some v) (some items) params = store k (append_item items (str v)) params
added k v _ params = store k (item (value_of v) no_items) params

unfoldable pub add_parameters : Params Items → Params (Option Bytes) → Params Items
unfolding added lookup store
add_parameters params [] = params
add_parameters params ((k, v) ∷ rest) = add_parameters (added k v (lookup k params) params) rest

unfoldable pub as_array : Bytes × Items → Bytes × Value
as_array (k, items) = (k, arr items)

unfoldable pub as_arrays : Params Items → Params Value
unfolding as_array
as_arrays = map as_array

module _ (parse_uri : Bytes → Option Uri) (cgi_parse : Bytes → Params Items) where
  unfoldable pub query_of : Option Uri → Outcome (Option Bytes)
  query_of none = raise invalid_uri
  query_of (some u) = ok u.query

  unfoldable pub query_params : HttpRequest → Outcome (Option Bytes)
  unfolding query_of
  query_params r = query_of (parse_uri r.path)

  -- The parts that `query_string` joins.
  unfoldable pub query_parts : HttpRequest → Option Bytes → List (Option Bytes)
  unfolding auth_header_params form_url_encoded same_case
  query_parts r query =
      let front = query ∷ auth_header_params r ∷ [] in
      if (same_case r.method (codes "POST") || same_case r.method (codes "PUT"))
        && form_url_encoded r
      then front ++ r.body ∷ []
      else front

  unfoldable pub query_string : HttpRequest → Outcome Bytes
  unfolding query_params query_parts compact join
  query_string r = query_params r >>= λ query. ok (join (b'&' ∷ []) (compact (query_parts r query)))

  unfoldable pub all_parameters : HttpRequest → Params (Option Bytes) → Outcome (Params Value)
  unfolding query_string add_parameters as_arrays
  all_parameters r parameters =
      query_string r >>= λ text. ok (as_arrays (add_parameters (cgi_parse text) parameters))

  -- The proxy, without the option `clobber_request`.
  unfoldable pub http_proxy : HttpRequest → ProxyOptions → Outcome Proxy
  unfolding all_parameters
  http_proxy r o = all_parameters r o.parameters >>= λ params. ok (record {
    method = r.method;
    uri = o.uri;
    parameters = params;
    unsigned_parameters = o.unsigned_parameters;
    signed = false;
    is_mock = false;
  })
