-- ===== src/Examples/Queries.antt =====
-- A request of lib/oauth/client/net_http.rb by the scheme "query_string", and the server that receives
-- it; and one by the scheme "body".
use mathlib.Core.List.{cons-ne-nil}
use oauth.Prelude.{◌≡◌, refl, ap, [], ◌∷◌, ◌++◌, Bytes, codes, some, none, Option, drop, map}
use oauth.Params.{Value, Params, Items, merge}
use oauth.Uri.{Uri}
use oauth.Outcome.{ok}
use oauth.Helper.Normalize.RoundTrip.{read_form}
use oauth.RequestProxy.NetHttp.{HttpRequest, all_parameters}
use oauth.RequestProxy.Rack.{RackRequest, as_strings}
use oauth.Helper.Escape.{escape, unescape}
use oauth.RequestProxy.{first_value}
use oauth.Client.{HelperOptions, shown, oauth_parameters, helper_signature}
use oauth.Client.Sent.{single_item}
use oauth.Helper.Normalize.{normalize, pair_text, sort_strings}
use oauth.Client.NetHttp.{set_oauth_body, form_of}
use oauth.Client.NetHttp.Forms.{read_form-form_of}
use oauth.Client.NetHttp.Queried.{ParsesForms}
use oauth.Examples.Clients.{digest, photos_options}

-- A reader and a writer of the addresses of one path.
abbrev photos_at : Option Bytes → Uri
photos_at query = record {
  scheme = some (codes "http");
  host = some (codes "photos.example.net");
  port = some 80;
  path = some (codes "/photos");
  query = query;
}

abbrev read_path : Bytes → Option Uri
read_path text = some (photos_at (some (drop 8 text)))

abbrev write_path : Uri → Bytes
write_path u = codes "/photos?" ++ shown u.query

abbrev form_or_none : {V : Type 0} → (Params Bytes → Params V) → Option (Params Bytes) → Params V
form_or_none f none = []
form_or_none f (some ps) = f ps

abbrev pub read_items : Bytes → Params Items
read_items text = form_or_none (map single_item) (read_form text)

abbrev read_strings : Bytes → Params Value
read_strings text = form_or_none as_strings (read_form text)

pub items_read : ParsesForms read_items (map single_item)
unfolding read_form form_of
items_read [] nodup bytes = refl
items_read (p ∷ ps) nodup bytes =
    ap (form_or_none (map single_item)) (read_form-form_of (p ∷ ps) (cons-ne-nil p ps) bytes)

abbrev signed_path : Bytes
signed_path =
    codes
      "/photos?size=big&oauth_consumer_key=ck&oauth_token=t%20k&oauth_signature_method=HMAC-SHA1&oauth_timestamp=1&oauth_nonce=n&oauth_version=1.0&oauth_signature=ZGlnZXN0"

abbrev signed_request : HttpRequest
signed_request = record {
  method = codes "GET";
  path = signed_path;
  content_type = none;
  authorization = none;
  body = none;
}

abbrev photos_served : RackRequest
photos_served = record {
  env = [];
  original_method = none;
  request_method = codes "GET";
  url = codes "http://photos.example.net" ++ signed_path;
  content_type = none;
  query = read_strings (drop 8 signed_path);
  form = [];
}

-- A stand-in for `URI.encode_www_form`.
abbrev encode_sorted : Params Value → Bytes
encode_sorted ps = shown (normalize ps)

-- A reader of paths without a query.
abbrev read_plain : Bytes → Option Uri
read_plain text = some (photos_at none)

abbrev request_by : Bytes → HttpRequest
request_by method = record {
  method = method;
  path = codes "/photos";
  content_type = none;
  authorization = none;
  body = none;
}

abbrev sent_body : Bytes → Bytes → HttpRequest
sent_body method body = record {
  method = method;
  path = codes "/photos";
  content_type = some (codes "application/x-www-form-urlencoded");
  authorization = none;
  body = some body;
}

-- By POST, the OAuth parameters and the signature are the body.
post_body :
    set_oauth_body
      (codes "k")
      (codes "1")
      read_plain
      read_items
      digest
      encode_sorted
      (request_by (codes "POST"))
      photos_options
    ≡ ok (
        sent_body (codes "POST") (
          codes
            "oauth_consumer_key=ck&oauth_nonce=n&oauth_signature=ZGlnZXN0&oauth_signature_method=HMAC-SHA1&oauth_timestamp=1&oauth_token=t%20k&oauth_version=1.0"))
unfolding set_oauth_body all_parameters helper_signature first_value read_form shown pair_text
    escape unescape merge oauth_parameters single_item sort_strings
post_body = refl

abbrev hmac_options : HelperOptions
hmac_options = record photos_options { consumer_signature_method = some (codes "HMAC-SHA1") }

-- By PATCH, the body is not read back, and the signature alone is sent.
patch_body :
    set_oauth_body
      (codes "k")
      (codes "1")
      read_plain
      read_items
      digest
      encode_sorted
      (request_by (codes "PATCH"))
      hmac_options
    ≡ ok (sent_body (codes "PATCH") (codes "oauth_signature=ZGlnZXN0"))
unfolding set_oauth_body all_parameters helper_signature first_value read_form shown pair_text
    escape unescape
patch_body = refl
