-- ===== src/Client/NetHttp/Served.antt =====
-- A server that reads the parameters and the signature from the path that the client has written.
use mathlib.Core.List.Permᴰ
use mathlib.Core.Path.{subst}
use oauth.Prelude.{
  ◌≡◌, ◌≢◌, refl, sym, ap, ◌∙◌, [], ◌∷◌, ◌++◌, append-nil, All, true, false, Option, some, Bytes,
  bytes_eq_refl, IsBytes, map,
}
use oauth.Params.{Value, str, arr, Items, item, no_items, Params, NodupKeys, lookup}
use oauth.Params.Appended.{lookup-append_fresh, lookup-append_found}
use oauth.Params.Mapped.{lookup-map}
use oauth.Uri.{Uri}
use oauth.Outcome.{ok, ◌>>=◌, >>=-eq-ok}
use oauth.Helper.Normalize.{sort_params}
use oauth.RequestProxy.{
  signature_key, parameters_for_signature, signature_and_unsigned_parameters, signature_base_string,
  Proxy, base_normalized_uri, class_normalized_uri, normalized_parameters, base_text, or_empty,
  oauth_signature,
}
use oauth.RequestProxy.NetHttp.{HttpRequest, as_array, as_arrays}
use oauth.RequestProxy.Rack.{RackRequest, is_oauth_key, as_string, as_strings}
use oauth.Signature.{Method, no_block, new_signer, method_of, method_named, signature, sign, verify}
use oauth.Signature.Accepts.{signature-request, new_signer-request, request-new_signer, check_self}
use oauth.Client.{HelperOptions, secrets_of, shown_values}
use oauth.Client.Keys.{signature_method_key}
use oauth.Client.Received.{NodupKeys-last, as_string-key}
use oauth.Client.Proxies.{
  client_proxy, server_proxy, single_item-key, as_array-key, first_value-arr, first_value-str,
  method_named-str, signature_base_string-same,
}
use oauth.Client.Sent.{single_item, normalize-received}
use oauth.Client.NetHttp.Queried.{ReadsForms, ParsesForms, ParsesFlat, queried}

-- A request whose parameters were signed as arrays, and are read as strings with the signature.
module _ (parse_uri : Bytes → Option Uri) (hmac : Method → Bytes → Bytes → Bytes)
    (generate_key generate_timestamp : Bytes) (r : HttpRequest) (o : HelperOptions)
    (all : Params Bytes) (nodup : NodupKeys all) (unsigned : All (λ p. p.0 ≢ signature_key) all)
    (name : Bytes) (named : lookup signature_method_key all ≡ some name) (sig : Bytes) (url : Bytes)
    (address : base_normalized_uri parse_uri url
      ≡ base_normalized_uri parse_uri o.request_uri) where
  abbrev pub served : Params Bytes
  served = all ++ (signature_key, sig) ∷ []

  -- The proxy that the server makes, at the address that it has received.
  abbrev pub arrived : Proxy
  arrived = record (server_proxy r o served) { uri = url }

  served-NodupKeys : NodupKeys served
  served-NodupKeys = NodupKeys-last all signature_key sig nodup unsigned

  client-method_of :
      (fallback : Option Bytes)
      → method_of (client_proxy r o all []) fallback ≡ method_named (str name) fallback
  unfolding method_of as_arrays as_array single_item
  client-method_of fallback =
      ap (λ v. method_named v fallback)
        (first_value-arr signature_method_key name _ (
          subst
            (λ ps.
              lookup signature_method_key (as_arrays ps) ≡ some (arr (item (str name) no_items)))
            (sym (append-nil (map single_item all)))
            (lookup-map as_array as_array-key signature_method_key (map single_item all) _
              (lookup-map single_item single_item-key signature_method_key all name named))))

  served-lookup :
      (key v : Bytes) → lookup key served ≡ some v → lookup key (as_strings served) ≡ some (str v)
  unfolding as_strings as_string
  served-lookup key v found = lookup-map as_string as_string-key key served v found

  server-method_of :
      (fallback : Option Bytes) → method_of arrived fallback ≡ method_named (str name) fallback
  unfolding method_of
  server-method_of fallback =
      ap (λ v. method_named v fallback)
        (first_value-str signature_method_key name _ (
          served-lookup signature_method_key name
            (lookup-append_found signature_method_key all ((signature_key, sig) ∷ []) name named)))

  server-oauth_signature : oauth_signature arrived ≡ str sig
  unfolding oauth_signature lookup
  server-oauth_signature = ap or_empty (
      first_value-str signature_key sig _ (
        served-lookup signature_key sig (
          lookup-append_fresh signature_key all ((signature_key, sig) ∷ []) unsigned
          ∙ rw (bytes_eq_refl signature_key) refl)))

  arrived-base_string :
      signature_base_string parse_uri arrived
      ≡ signature_base_string parse_uri (server_proxy r o served)
  unfolding signature_base_string class_normalized_uri
  arrived-base_string =
      ap
        (λ m. m >>= λ uri. normalized_parameters (server_proxy r o served) >>= λ params.
          ok (base_text r.method uri params))
        address

  server-base_string :
      signature_base_string parse_uri (server_proxy r o served)
      ≡ signature_base_string parse_uri (client_proxy r o all [])
  unfolding parameters_for_signature signature_and_unsigned_parameters sort_params shown_values
  server-base_string =
      signature_base_string-same parse_uri (client_proxy r o all []) (as_strings served)
        (normalize-received o.unsigned_parameters all all [] sig (Permᴰ.refl all) served-NodupKeys)

  pub verify-served :
      (fallback : Option Bytes)
      → sign parse_uri hmac
          (client_proxy r o all [])
          (secrets_of generate_key generate_timestamp o)
          no_block
          o.consumer_signature_method
        ≡ ok sig
      → verify parse_uri hmac arrived
          (secrets_of generate_key generate_timestamp o)
          no_block
          fallback
        ≡ ok true
  unfolding sign verify
  verify-served fallback signed =
      let p = client_proxy r o all [] in
      let p' = arrived in
      let secrets = secrets_of generate_key generate_timestamp o in
      let (m, is_m, is_sig) = >>=-eq-ok (method_of p o.consumer_signature_method) _ signed in
      let is_m' : method_of p' fallback ≡ ok m =
        server-method_of fallback
        ∙ method_named-str name fallback o.consumer_signature_method
        ∙ sym (client-method_of o.consumer_signature_method)
        ∙ is_m in
      let is_text : signature parse_uri hmac m (new_signer p' secrets no_block) ≡ ok sig =
        ap (signature parse_uri hmac m) (new_signer-request p p' secrets)
        ∙ signature-request parse_uri hmac m (new_signer p secrets no_block) p' (
            arrived-base_string
            ∙ server-base_string
            ∙ ap (signature_base_string parse_uri) (sym (request-new_signer p secrets no_block)))
        ∙ is_sig in
      rw (is_m', is_text, server-oauth_signature) (check_self parse_uri hmac m sig)

module _ (generate_key generate_timestamp : Bytes) (parse_uri : Bytes → Option Uri)
    (to_s : Uri → Bytes) (cgi_parse : Bytes → Params Items) (rack_parse : Bytes → Params Value)
    (hmac : Method → Bytes → Bytes → Bytes)
    (digest_bytes : (m : Method) (key text : Bytes) → IsBytes (hmac m key text)) (r : HttpRequest)
    (o : HelperOptions) (qs : Params Bytes) (qs_nodup : NodupKeys qs)
    (qs_plain : All (λ p. is_oauth_key p.0 ≡ false) qs) (u : Uri) (front : Bytes)
    (reads : ReadsForms parse_uri to_s front u) (parses : ParsesForms cgi_parse (map single_item))
    (rack_parses : ParsesFlat rack_parse as_strings) where
  abbrev sent : Params Bytes
  sent = queried generate_key generate_timestamp o qs qs_nodup qs_plain

  -- The query of the path that was sent, as Rack finds it.
  abbrev pub Receives : RackRequest → HttpRequest → Type 0
  Receives rack r' =
      (query : Bytes)
      → parse_uri r'.path ≡ some (record u { query = some query })
      → rack.query ≡ rack_parse query
