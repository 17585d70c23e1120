-- ===== src/Client/Signs.antt =====
-- What the client signs when it writes a header.
use oauth.Prelude.{◌≡◌, refl, sym, ap, ◌∙◌, ◌++◌, All, true, false, Option, some, Bytes, codes, map}
use oauth.Params.{str, Items, Params, NodupKeys, store}
use oauth.Params.Appended.{lookup-append_fresh, All-apart, NodupKeys-append}
use oauth.Params.Mapped.{NodupKeys-map, All-map_keys, lookup-map}
use oauth.Uri.{Uri}
use oauth.Outcome.{ok, ◌>>=◌, >>=-eq-ok, ok-injective}
use oauth.Helper.Normalize.{sort_params}
use oauth.Helper.Header.{header_text}
use oauth.RequestProxy.{signature_key}
use oauth.RequestProxy.NetHttp.{
  value_of, HttpRequest, ProxyOptions, query_string, as_array, as_arrays, all_parameters,
  http_proxy,
}
use oauth.RequestProxy.Rack.{is_oauth_key}
use oauth.Signature.{Method, no_block, method_of, method_named, sign}
use oauth.Client.{
  HelperOptions, given_or, is_filled, oauth_parameters, secrets_of, helper_signature, signed_header,
  header, shown_values,
}
use oauth.Client.Keys.{
  signature_method_key, oauth_parameters-NodupKeys, oauth_parameters-oauth, lookup-signature_method,
}
use oauth.Client.Sent.{single_item, item_of, add_parameters-fresh}
use oauth.Client.Proxies.{client_proxy, single_item-key, item_of-key, as_array-key, first_value-arr}

module _ (generate_key generate_timestamp : Bytes) (parse_uri : Bytes → Option Uri)
    (cgi_parse : Bytes → Params Items) (hmac : Method → Bytes → Bytes → Bytes) (r : HttpRequest)
    (o : HelperOptions) (qs : Params Bytes) (qs_nodup : NodupKeys qs)
    (qs_plain : All (λ p. is_oauth_key p.0 ≡ false) qs) where
  abbrev pub parameters_sent : Params (Option Bytes)
  parameters_sent = oauth_parameters generate_key generate_timestamp o

  abbrev options_sent : ProxyOptions
  options_sent = record {
    uri = o.request_uri;
    parameters = parameters_sent;
    unsigned_parameters = o.unsigned_parameters;
  }

  signed_NodupKeys : NodupKeys (map single_item qs ++ map item_of parameters_sent)
  signed_NodupKeys =
      NodupKeys-append is_oauth_key (map single_item qs) (map item_of parameters_sent)
        (NodupKeys-map single_item single_item-key qs qs_nodup)
        (NodupKeys-map item_of item_of-key parameters_sent
          (oauth_parameters-NodupKeys generate_key generate_timestamp o))
        (All-map_keys single_item single_item-key (λ k. is_oauth_key k ≡ false) qs qs_plain)
        (All-map_keys item_of item_of-key (λ k. is_oauth_key k ≡ true) parameters_sent
          (oauth_parameters-oauth generate_key generate_timestamp o))

  http_proxy-sent :
      (query : Bytes)
      → query_string parse_uri cgi_parse r ≡ ok query
      → cgi_parse query ≡ map single_item qs
      → http_proxy parse_uri cgi_parse r options_sent ≡ ok (client_proxy r o qs parameters_sent)
  unfolding http_proxy all_parameters
  http_proxy-sent query is_query parsed =
      rw
        (
          is_query,
          parsed,
          add_parameters-fresh (map single_item qs) parameters_sent signed_NodupKeys,
        )
        refl

  abbrev pub method_sent : Bytes
  method_sent = given_or o.signature_method (codes "HMAC-SHA1")

  pub method_of-sent :
      (fallback : Option Bytes)
      → is_filled (some method_sent) ≡ true
      → method_of (client_proxy r o qs parameters_sent) fallback
        ≡ method_named (str method_sent) fallback
  unfolding method_of as_arrays as_array item_of value_of is_oauth_key
  method_of-sent fallback filled =
      let plain =
        All-map_keys single_item single_item-key (λ k. is_oauth_key k ≡ false) qs qs_plain in
      let apart =
        All-apart is_oauth_key signature_method_key false (map single_item qs) (λ e. cc) plain in
      let found =
        lookup-append_fresh signature_method_key (map single_item qs) (map item_of parameters_sent)
          apart
        ∙ lookup-map item_of item_of-key signature_method_key parameters_sent (some method_sent)
            (lookup-signature_method generate_key generate_timestamp o filled) in
      ap (λ v. method_named v fallback)
        (first_value-arr signature_method_key method_sent _
          (lookup-map as_array as_array-key signature_method_key _ _ found))

  -- What the client has done when it returns a header.
  pub header-signed :
      (query text : Bytes)
      → query_string parse_uri cgi_parse r ≡ ok query
      → cgi_parse query ≡ map single_item qs
      → header generate_key generate_timestamp parse_uri cgi_parse hmac r o ≡ ok text
      → (sig : Bytes) × (sign parse_uri hmac
            (client_proxy r o qs parameters_sent)
            (secrets_of generate_key generate_timestamp o)
            no_block
            o.consumer_signature_method
          ≡ ok sig)
        × (header_text o.realm
              (shown_values (sort_params (store signature_key (some sig) parameters_sent)))
            ≡ text)
  unfolding header helper_signature signed_header
  header-signed query text is_query parsed written =
      let (sig, is_sig, result) =
        >>=-eq-ok
          (helper_signature generate_key generate_timestamp parse_uri cgi_parse hmac r o
            parameters_sent)
          _ written in
      (
        sig,
        sym (
              ap
                (λ m. m >>= λ p.
                  sign parse_uri hmac p (secrets_of generate_key generate_timestamp o) no_block
                    o.consumer_signature_method)
                (http_proxy-sent query is_query parsed))
            ∙ is_sig,
        ok-injective result,
      )
