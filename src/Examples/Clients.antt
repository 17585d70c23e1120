-- ===== src/Examples/Clients.antt =====
-- A request of lib/oauth/client/helper.rb, and the server that receives it.
use mathlib.Core.List.Permᴰ
use oauth.Prelude.{
  ◌≡◌, refl, [], ◌∷◌, Bytes, codes, some, none, arith, Option, true, IsBytes, bytes_eq,
}
use oauth.Prelude.Lines.{start_with}
use oauth.Params.{Params, Items, item, no_items, str, merge, lookup}
use oauth.Uri.{Uri}
use oauth.Outcome.{ok, ◌>>=◌}
use oauth.RequestProxy.{first_value}
use oauth.Helper.Escape.{escape}
use oauth.RequestProxy.NetHttp.{HttpRequest, query_string}
use oauth.RequestProxy.Rack.{
  request_params, as_strings, method_or, RackRequest, rack_proxy, is_oauth_key,
}
use oauth.Signature.{Method, no_block, verify}
use oauth.Client.{
  shown, is_filled, given_or, HelperOptions, this_empty, oauth_parameters, secrets_of, header,
}
use oauth.Client.Sent.{single_item}
use oauth.Client.Accepted.{verify-header}

-- A reader of one address, a reader of its query, and a mock of HMAC.
abbrev photos_uri : Bytes → Option Uri
photos_uri text = some (record {
  scheme = some (codes "http");
  host = some (codes "photos.example.net");
  port = some 80;
  path = some (codes "/photos");
  query = some (codes "size=big");
})

abbrev pub size : Params Bytes
size = (codes "size", codes "big") ∷ []

abbrev size_query : Bytes → Params Items
size_query text = (codes "size", item (str (codes "big")) no_items) ∷ []

abbrev pub digest : Method → Bytes → Bytes → Bytes
digest m key text = codes "digest"

pub digest-IsBytes : (m : Method) (key text : Bytes) → IsBytes (digest m key text)
digest-IsBytes m key text = omega arith

abbrev pub get_request : HttpRequest
get_request = record {
  method = codes "GET";
  path = codes "/photos?size=big";
  content_type = none;
  authorization = none;
  body = none;
}

abbrev pub photos_options : HelperOptions
photos_options = record {
  body_hash = none;
  oauth_callback = none;
  consumer = record { key = some (codes "ck"); secret = some (codes "cs") };
  consumer_signature_method = none;
  token = some (record { key = some (codes "t k"); secret = some (codes "ts") });
  signature_method = none;
  timestamp = none;
  nonce = some (codes "n");
  oauth_verifier = none;
  oauth_version = none;
  oauth_session_handle = none;
  allow_empty_params = this_empty none;
  request_uri = codes "http://photos.example.net/photos?size=big";
  unsigned_parameters = [];
  realm = none;
}

abbrev photos_header : Bytes
photos_header =
    codes
      "OAuth oauth_consumer_key=\"ck\", oauth_nonce=\"n\", oauth_signature=\"ZGlnZXN0\", oauth_signature_method=\"HMAC-SHA1\", oauth_timestamp=\"1\", oauth_token=\"t%20k\", oauth_version=\"1.0\""

photos_header_written :
    header (codes "k") (codes "1") photos_uri size_query digest get_request photos_options
    ≡ ok photos_header
unfolding header first_value escape
photos_header_written = refl

abbrev photos_received : RackRequest
photos_received = record {
  env = (codes "HTTP_AUTHORIZATION", photos_header) ∷ [];
  original_method = none;
  request_method = codes "GET";
  url = codes "http://photos.example.net/photos?size=big";
  content_type = none;
  query = (codes "size", str (codes "big")) ∷ [];
  form = [];
}

-- The server knows no signature method of the consumer.
verify-header_example :
    (rack_proxy photos_received [] >>= λ p.
    verify photos_uri digest p (secrets_of (codes "k") (codes "1") photos_options) no_block none)
    ≡ ok true
unfolding query_string single_item is_oauth_key start_with bytes_eq request_params merge as_strings
    method_or is_filled given_or oauth_parameters lookup shown
verify-header_example =
    verify-header (codes "k") (codes "1") photos_uri size_query digest digest-IsBytes get_request
      photos_options size (tt, tt) (refl, tt) (codes "size=big") photos_header photos_received size
      none refl refl (Permᴰ.refl size) refl refl refl (refl, refl, refl) refl refl (omega arith)
      (omega arith) (omega arith) photos_header_written
