-- ===== src/Client/Proxies.antt =====
-- The requests of the client and of the server, and what the signature reads of them.
use oauth.Prelude.{◌≡◌, refl, ap, ◌∙◌, ◌++◌, false, Option, none, some, Bytes, map}
use oauth.Params.{Value, str, arr, Items, item, no_items, Params, lookup}
use oauth.Uri.{Uri}
use oauth.Outcome.{ok, raise, argument_error, ◌>>=◌}
use oauth.Helper.Normalize.{normalize}
use oauth.RequestProxy.{
  Proxy, first_value, first_of, parameters_for_signature, normalize_or_raise, normalized_parameters,
  class_normalized_uri, signature_base_string, base_text,
}
use oauth.RequestProxy.NetHttp.{HttpRequest, as_array, as_arrays}
use oauth.RequestProxy.Rack.{as_strings, RackRequest, rack_parameters, rack_proxy, method_or}
use oauth.Signature.Texts.{SecretBytes}
use oauth.Signature.{method_named, override}
use oauth.Client.{HelperOptions, Credentials, token_secret}
use oauth.Client.Sent.{single_item, item_of}

-- The proxies on the two sides.
abbrev pub client_proxy : HttpRequest → HelperOptions → Params Bytes → Params (Option Bytes) → Proxy
client_proxy r o qs ps = record {
  method = r.method;
  uri = o.request_uri;
  parameters = as_arrays (map single_item qs ++ map item_of ps);
  unsigned_parameters = o.unsigned_parameters;
  signed = false;
  is_mock = false;
}

abbrev pub server_proxy : HttpRequest → HelperOptions → Params Bytes → Proxy
server_proxy r o ps = record {
  method = r.method;
  uri = o.request_uri;
  parameters = as_strings ps;
  unsigned_parameters = o.unsigned_parameters;
  signed = false;
  is_mock = false;
}

-- The secret of the token, if there is a token.
abbrev pub TokenBytes : Option Credentials → Type 0
TokenBytes none = Unit
TokenBytes (some token) = SecretBytes token.secret

pub token_secret-bytes :
    (token : Option Credentials)
    → TokenBytes token
    → SecretBytes (override (token_secret token) none)
unfolding override token_secret
token_secret-bytes none h = tt
token_secret-bytes (some token) h = h

pub rack_proxy-url :
    (r : HttpRequest) (o : HelperOptions) (rack : RackRequest) (ps : Params Bytes)
    → rack_parameters rack ≡ ok (as_strings ps)
    → method_or rack.original_method rack.request_method ≡ r.method
    → rack_proxy rack o.unsigned_parameters ≡ ok (record (server_proxy r o ps) { uri = rack.url })
unfolding rack_proxy
rack_proxy-url r o rack ps params is_method =
    ap
      (λ m. m >>= λ ps'. ok (record {
        method = method_or rack.original_method rack.request_method;
        uri = rack.url;
        parameters = ps';
        unsigned_parameters = o.unsigned_parameters;
        signed = false;
        is_mock = false;
      }))
      params
    ∙ (λ i. ok (record (server_proxy r o ps) { method = is_method i; uri = rack.url }))

pub rack_proxy-arrived :
    (r : HttpRequest) (o : HelperOptions) (rack : RackRequest) (ps : Params Bytes)
    → rack_parameters rack ≡ ok (as_strings ps)
    → method_or rack.original_method rack.request_method ≡ r.method
    → rack.url ≡ o.request_uri
    → rack_proxy rack o.unsigned_parameters ≡ ok (server_proxy r o ps)
rack_proxy-arrived r o rack ps params is_method is_url =
    rack_proxy-url r o rack ps params is_method
    ∙ ap (λ url. ok (record (server_proxy r o ps) { uri = url })) is_url

pub single_item-key : (p : Bytes × Bytes) → (single_item p).0 ≡ p.0
unfolding single_item
single_item-key p = refl

pub item_of-key : (p : Bytes × Option Bytes) → (item_of p).0 ≡ p.0
unfolding item_of
item_of-key p = refl

pub as_array-key : (p : Bytes × Items) → (as_array p).0 ≡ p.0
unfolding as_array
as_array-key p = refl

-- `first_value` of a parameter that is a string, or an array with one string.
pub first_value-str :
    (key text : Bytes) (params : Params Value)
    → lookup key params ≡ some (str text)
    → first_value key params ≡ str text
unfolding first_value first_of
first_value-str key text params found = rw found refl

pub first_value-arr :
    (key text : Bytes) (params : Params Value)
    → lookup key params ≡ some (arr (item (str text) no_items))
    → first_value key params ≡ str text
unfolding first_value first_of
first_value-arr key text params found = rw found refl

pub method_named-str :
    (text : Bytes) (f g : Option Bytes) → method_named (str text) f ≡ method_named (str text) g
unfolding method_named
method_named-str text f g = refl

-- The base string of a request reads its parameters through what they are normalised to.
module _ (parse_uri : Bytes → Option Uri) where
  normalized_parameters-same :
      (p : Proxy) (params : Params Value)
      → normalize (parameters_for_signature (record p { parameters = params }))
        ≡ normalize (parameters_for_signature p)
      → normalized_parameters (record p { parameters = params }) ≡ normalized_parameters p
  unfolding normalized_parameters normalize_or_raise
  normalized_parameters-same p params e =
      ap (λ o. elim o [ none ↦ raise argument_error | some text ↦ ok text ]) e

  pub signature_base_string-same :
      (p : Proxy) (params : Params Value)
      → normalize (parameters_for_signature (record p { parameters = params }))
        ≡ normalize (parameters_for_signature p)
      → signature_base_string parse_uri (record p { parameters = params })
        ≡ signature_base_string parse_uri p
  unfolding signature_base_string class_normalized_uri
  signature_base_string-same p params e =
      ap
        (λ m. class_normalized_uri parse_uri p >>= λ uri.
          m >>= λ text. ok (base_text p.method uri text))
        (normalized_parameters-same p params e)
