-- ===== src/Client/NetHttp.antt =====
-- lib/oauth/client/net_http.rb, with `hash_body`, `parameters_with_oauth` and
-- `amend_user_agent_header` of lib/oauth/client/helper.rb: how a request of Net::HTTP gets its
-- signature, by the scheme. Of Ruby's libraries come `URI.parse`, the text of a URI,
-- `URI.encode_www_form`, `CGI.parse` and `request_body_permitted?`.
pub mod Address
pub mod Forms
pub mod Queried
pub mod Served
use oauth.Prelude.{
  List, [], ◌∷◌, ◌++◌, Bool, true, false, not, ◌&&◌, Option, none, some, Bytes, codes, bytes_eq,
  if◌then◌else◌, map,
}
use oauth.Prelude.Split.{join}
use oauth.Params.{Value, str, Items, Params, merge, store}
use oauth.Uri.{Uri}
use oauth.Outcome.{Outcome, ok, raise, invalid_uri, no_method_error, ◌>>=◌}
use oauth.Helper.Escape.{escape}
use oauth.Helper.Normalize.{pair_text}
use oauth.RequestProxy.{signature_key}
use oauth.RequestProxy.NetHttp.{HttpRequest, form_type, value_of, all_parameters, http_proxy}
use oauth.Signature.{Method, method_of, body_hash}
use oauth.Client.{HelperOptions, shown_values, oauth_parameters, helper_signature, header}

-- The request, with its header User-Agent.
pub record NetRequest : Type 0 where
  pub http : HttpRequest
  pub user_agent : Option Bytes
  pub body_permitted : Bool

-- The entries of the options that `oauth!` itself reads.
pub record SchemeOptions : Type 0 where
  pub scheme : Bytes
  pub token_request : Bool
  pub body_hash_enabled : Bool

-- `amend_user_agent_header`, with the name and version of the library
unfoldable pub amended : Bytes → Option Bytes → Bytes
unfolding bytes_eq
amended ua none = ua
amended ua (some agent) =
    if bytes_eq agent (codes "Ruby") then ua else agent ++ (codes " (" ++ (ua ++ codes ")"))

unfoldable pub amend_user_agent_header : Bytes → NetRequest → NetRequest
unfolding amended
amend_user_agent_header ua r = record r { user_agent = some (amended ua r.user_agent) }

-- `oauth_body_hash_required?`
unfoldable pub oauth_body_hash_required : SchemeOptions → NetRequest → Bool
unfolding form_type
oauth_body_hash_required s r =
    not s.token_request
    && r.body_permitted
    && not (form_type r.http.content_type)
    && s.body_hash_enabled

unfoldable pub with_body_hash : Option Bytes → HelperOptions → HelperOptions
with_body_hash hash o = record o { body_hash = hash }

unfoldable pub with_path : Bytes → HttpRequest → HttpRequest
with_path path r = record r { path = path }

-- `[escape(k), escape(v)].join("=")` for each of them, joined by "&"
unfoldable pub pair_of : Bytes × Bytes → Bytes
unfolding pair_text
pair_of (k, v) = pair_text k v

unfoldable pub form_of : Params Bytes → Bytes
unfolding pair_of join
form_of ps = join (b'&' ∷ []) (map pair_of ps)

-- The query that `set_oauth_query_string` gives to the URI.
unfoldable pub amended_query : Option Bytes → Bytes → Bytes
amended_query none text = text
amended_query (some []) text = text
amended_query (some (c ∷ query)) text = c ∷ query ++ b'&' ∷ text

unfoldable pub values_of : Params (Option Bytes) → Params Value
unfolding value_of
values_of [] = []
values_of ((k, v) ∷ ps) = (k, value_of v) ∷ values_of ps

-- `@path << "&oauth_signature=#{…}"`
unfoldable pub path_with_signature : Bytes → Bytes → Bytes
path_with_signature path text = path ++ (codes "&oauth_signature=" ++ escape text)

-- `set_form_data` of Net::HTTP, with its `URI.encode_www_form`
unfoldable pub set_form_data : (Params Value → Bytes) → Params Value → HttpRequest → HttpRequest
set_form_data encode_www_form ps r = record r {
  body = some (encode_www_form ps);
  content_type = some (codes "application/x-www-form-urlencoded");
}

module _ (generate_key generate_timestamp : Bytes) where
  -- The path with the OAuth parameters in its query.
  unfoldable pub path_with_oauth : (Uri → Bytes) → HelperOptions → Uri → Bytes
  unfolding amended_query form_of
  path_with_oauth to_s o u =
      let text = form_of (shown_values (oauth_parameters generate_key generate_timestamp o)) in
      to_s (record u { query = some (amended_query u.query text) })

module _ (generate_key generate_timestamp : Bytes) (parse_uri : Bytes → Option Uri)
    (cgi_parse : Bytes → Params Items) (hmac : Method → Bytes → Bytes → Bytes) where
  -- `hash_body`: the hash is one of the options afterwards.
  unfoldable pub hash_body :
      (Method → Bytes → Bytes) → HttpRequest → HelperOptions → Outcome HelperOptions
  unfolding with_body_hash
  hash_body digest r o =
      http_proxy parse_uri cgi_parse r (record {
        uri = [];
        parameters = oauth_parameters generate_key generate_timestamp o;
        unsigned_parameters = [];
      })
      >>= λ p. method_of p none >>= λ m. ok (with_body_hash (body_hash digest m r.body) o)

  -- `set_oauth_header`
  unfoldable pub set_oauth_header : HttpRequest → HelperOptions → Outcome HttpRequest
  set_oauth_header r o =
      header generate_key generate_timestamp parse_uri cgi_parse hmac r o >>= λ text.
      ok (record r { authorization = some text })

  -- `set_oauth_body`, with `parameters_with_oauth`
  unfoldable pub set_oauth_body :
      (Params Value → Bytes) → HttpRequest → HelperOptions → Outcome HttpRequest
  unfolding set_form_data values_of
  set_oauth_body encode_www_form r o = all_parameters parse_uri cgi_parse r [] >>= λ own.
      let all = merge (values_of (oauth_parameters generate_key generate_timestamp o)) own in
      let r' = set_form_data encode_www_form all r in
      all_parameters parse_uri cgi_parse r' [] >>= λ parameters.
      helper_signature generate_key generate_timestamp parse_uri cgi_parse hmac r' o [] >>= λ text.
      ok (set_form_data encode_www_form (store signature_key (str text) parameters) r')

  -- The path is signed with the OAuth parameters in it; the signature follows.
  unfoldable pub sign_path : Bytes → HttpRequest → HelperOptions → Outcome HttpRequest
  unfolding with_path path_with_signature
  sign_path path r o =
      helper_signature generate_key generate_timestamp parse_uri cgi_parse hmac (with_path path r) o
        []
      >>= λ text. ok (with_path (path_with_signature path text) r)

  unfoldable pub query_path :
      (Uri → Bytes) → HttpRequest → HelperOptions → Option Uri → Outcome HttpRequest
  query_path to_s r o none = raise invalid_uri
  query_path to_s r o (some u) =
      sign_path (path_with_oauth generate_key generate_timestamp to_s o u) r o

  -- `set_oauth_query_string`
  unfoldable pub set_oauth_query_string :
      (Uri → Bytes) → HttpRequest → HelperOptions → Outcome HttpRequest
  unfolding query_path sign_path path_with_oauth
  set_oauth_query_string to_s r o = query_path to_s r o (parse_uri r.path)

  module _ (digest : Method → Bytes → Bytes) (encode_www_form : Params Value → Bytes)
      (to_s : Uri → Bytes) where
    -- `send("set_oauth_#{helper_options[:scheme]}")`
    unfoldable pub set_oauth : Bytes → HttpRequest → HelperOptions → Outcome HttpRequest
    unfolding bytes_eq set_oauth_header set_oauth_body set_oauth_query_string
    set_oauth scheme r o =
        if bytes_eq scheme (codes "header")
        then set_oauth_header r o
        else if bytes_eq scheme (codes "body")
        then set_oauth_body encode_www_form r o
        else if bytes_eq scheme (codes "query_string")
        then set_oauth_query_string to_s r o
        else raise no_method_error

    -- The options after `hash_body`, where it is called.
    hashed_options : SchemeOptions → NetRequest → HelperOptions → Outcome HelperOptions
    unfolding hash_body oauth_body_hash_required
    hashed_options s r o = if oauth_body_hash_required s r then hash_body digest r.http o else ok o

    -- `oauth!`, with the name and version of the library
    unfoldable pub oauth_request :
        Bytes → NetRequest → SchemeOptions → HelperOptions → Outcome NetRequest
    unfolding amend_user_agent_header hashed_options set_oauth
    oauth_request ua r s o =
        let r' = amend_user_agent_header ua r in
        hashed_options s r' o >>= λ o'.
        set_oauth s.scheme r'.http o' >>= λ http. ok (record r' { http = http })
