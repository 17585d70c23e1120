-- ===== src/Client/Accepted.antt =====
-- A server that reads the header of the client accepts its signature.
use mathlib.Core.List.{Permᴰ}
use mathlib.Core.List.Permᴰ
use mathlib.Core.Path.{subst}
use oauth.Prelude.{
  ◌≡◌, refl, sym, ap, ◌∙◌, [], ◌∷◌, ◌++◌, All, true, false, Option, none, some, Bytes, codes,
  IsBytes, map,
}
use oauth.Params.{str, Items, Params, NodupKeys, lookup, merge}
use oauth.Params.Laws.{store-fresh}
use oauth.Params.Appended.{lookup-append_found}
use oauth.Params.Perms.{NodupKeys-Permᴰ, All-Permᴰ}
use oauth.Uri.{Uri}
use oauth.Outcome.{ok, ◌>>=◌, >>=-eq-ok}
use oauth.Helper.Normalize.{sort_params}
use oauth.Helper.Header.{header_text}
use oauth.Helper.Header.Parts.{IsLine}
use oauth.RequestProxy.{
  signature_key, parameters_for_signature, signature_and_unsigned_parameters, signature_base_string,
  or_empty, oauth_signature,
}
use oauth.RequestProxy.NetHttp.{HttpRequest, query_string}
use oauth.RequestProxy.Rack.{
  RackRequest, is_oauth_key, request_params, header_params, as_strings, rack_proxy, method_or,
}
use oauth.Signature.{Method, no_block, new_signer, method_of, method_named, signature, sign, verify}
use oauth.Signature.Accepts.{signature-request, new_signer-request, request-new_signer, check_self}
use oauth.Signature.Texts.{SecretBytes, signature-IsLine}
use oauth.Client.{
  HelperOptions, given_or, is_filled, shown, oauth_parameters, secrets_of, header, shown_values,
}
use oauth.Client.Keys.{
  signature_method_key, oauth_parameters-NodupKeys, oauth_parameters-oauth, oauth_parameters-plain,
  oauth_parameters-unsigned, lookup-signature_method,
}
use oauth.Client.Signs.{method_of-sent, header-signed}
use oauth.Client.Sent.{single_item, normalize-received}
use oauth.Client.Received.{
  Sendable, sent, sent-NodupKeys, sent-oauth, lookup-sent, lookup-sent_signature, parse_header-sent,
  HasHeader, headers_from-oauth, received-NodupKeys, rack_parameters-received, lookup-received,
}
use oauth.Client.Proxies.{
  client_proxy, server_proxy, TokenBytes, token_secret-bytes, rack_proxy-arrived, first_value-str,
  method_named-str, signature_base_string-same,
}

module _ (generate_key generate_timestamp : Bytes) (parse_uri : Bytes → Option Uri)
    (cgi_parse : Bytes → Params Items) (hmac : Method → Bytes → Bytes → Bytes)
    (digest_bytes : (m : Method) (key text : Bytes) → IsBytes (hmac m key text)) (r : HttpRequest)
    (o : HelperOptions) (qs : Params Bytes) (qs_nodup : NodupKeys qs)
    (qs_plain : All (λ p. is_oauth_key p.0 ≡ false) qs) where
  abbrev parameters_sent : Params (Option Bytes)
  parameters_sent = oauth_parameters generate_key generate_timestamp o

  abbrev method_sent : Bytes
  method_sent = given_or o.signature_method (codes "HMAC-SHA1")

  sendable : All (λ p. IsLine (shown p.1)) parameters_sent → Sendable parameters_sent
  sendable lines = (
    oauth_parameters-NodupKeys generate_key generate_timestamp o,
    oauth_parameters-unsigned generate_key generate_timestamp o,
    oauth_parameters-oauth generate_key generate_timestamp o,
    oauth_parameters-plain generate_key generate_timestamp o,
    lines,
  )

  -- The server's side, for the parameters that the header carries.
  module _ (qs' : Params Bytes) (perm : Permᴰ qs' qs) (sig : Bytes)
      (lines : All (λ p. IsLine (shown p.1)) parameters_sent) (line : IsLine sig) where
    abbrev arrived : Params Bytes
    arrived = sent parameters_sent sig (sendable lines) line

    arrived_nodup : NodupKeys qs'
    arrived_nodup = NodupKeys-Permᴰ (Permᴰ.symm perm) qs_nodup

    arrived_plain : All (λ p. is_oauth_key p.0 ≡ false) qs'
    arrived_plain = All-Permᴰ (λ p. is_oauth_key p.0 ≡ false) (Permᴰ.symm perm) qs_plain

    arrived_sent_nodup : NodupKeys arrived
    arrived_sent_nodup = sent-NodupKeys parameters_sent sig (sendable lines) line

    arrived_sent_oauth : All (λ p. is_oauth_key p.0 ≡ true) arrived
    arrived_sent_oauth = sent-oauth parameters_sent sig (sendable lines) line

    arrived_all_nodup : NodupKeys (qs' ++ arrived)
    arrived_all_nodup =
        received-NodupKeys qs' arrived arrived_nodup arrived_plain arrived_sent_nodup
          arrived_sent_oauth

    arrived-lookup :
        (key text : Bytes)
        → is_oauth_key key ≡ true
        → lookup key arrived ≡ some text
        → lookup key (as_strings (qs' ++ arrived)) ≡ some (str text)
    arrived-lookup =
        lookup-received qs' arrived arrived_nodup arrived_plain arrived_sent_nodup
          arrived_sent_oauth

    arrived-method_of :
        (fallback : Option Bytes)
        → is_filled (some method_sent) ≡ true
        → method_of (server_proxy r o (qs' ++ arrived)) fallback
          ≡ method_named (str method_sent) fallback
    unfolding method_of is_oauth_key shown
    arrived-method_of fallback filled =
        let found =
          lookup-append_found signature_method_key parameters_sent ((signature_key, some sig) ∷ [])
            (some method_sent) (lookup-signature_method generate_key generate_timestamp o filled) in
        ap (λ v. method_named v fallback)
          (first_value-str signature_method_key method_sent _ (
            arrived-lookup signature_method_key method_sent refl (
              lookup-sent parameters_sent sig (sendable lines) line signature_method_key
                (some method_sent) found)))

    arrived-oauth_signature : oauth_signature (server_proxy r o (qs' ++ arrived)) ≡ str sig
    unfolding oauth_signature is_oauth_key
    arrived-oauth_signature = ap or_empty (
        first_value-str signature_key sig _ (
          arrived-lookup signature_key sig refl
            (lookup-sent_signature parameters_sent sig (sendable lines) line)))

    arrived-base_string :
        signature_base_string parse_uri (server_proxy r o (qs' ++ arrived))
        ≡ signature_base_string parse_uri (client_proxy r o qs parameters_sent)
    unfolding parameters_for_signature signature_and_unsigned_parameters
    arrived-base_string =
        signature_base_string-same parse_uri (client_proxy r o qs parameters_sent)
          (as_strings (qs' ++ arrived))
          (normalize-received o.unsigned_parameters qs qs' parameters_sent sig perm
            arrived_all_nodup)

    arrived-check :
        (m : Method) (fallback : Option Bytes)
        → is_filled (some method_sent) ≡ true
        → method_named (str method_sent) o.consumer_signature_method ≡ ok m
        → signature parse_uri hmac m (
            new_signer
              (client_proxy r o qs parameters_sent)
              (secrets_of generate_key generate_timestamp o)
              no_block)
          ≡ ok sig
        → verify parse_uri hmac
            (server_proxy r o (qs' ++ arrived))
            (secrets_of generate_key generate_timestamp o)
            no_block
            fallback
          ≡ ok true
    unfolding verify
    arrived-check m fallback filled named signed =
        let p = client_proxy r o qs parameters_sent in
        let p' = server_proxy r o (qs' ++ arrived) in
        let secrets = secrets_of generate_key generate_timestamp o in
        let is_m : method_of p' fallback ≡ ok m =
          arrived-method_of fallback filled
          ∙ method_named-str method_sent fallback o.consumer_signature_method
          ∙ named in
        let is_text : signature parse_uri hmac m (new_signer p' secrets no_block) ≡ ok sig =
          ap (signature parse_uri hmac m) (new_signer-request p p' secrets)
          ∙ signature-request parse_uri hmac m (new_signer p secrets no_block) p' (
              arrived-base_string
              ∙ ap (signature_base_string parse_uri) (sym (request-new_signer p secrets no_block)))
          ∙ signed in
        rw (is_m, is_text, arrived-oauth_signature) (check_self parse_uri hmac m sig)

  -- A header that the client returns, without a realm, is accepted: a server that knows the same
  -- secrets, that finds the header in HTTP_AUTHORIZATION and in no other place, and that receives the
  -- request with the same method, address and own parameters, in whatever order, verifies it. The own
  -- parameters are strings under different keys that do not begin with "oauth_", read alike on both
  -- sides; the secrets and the digests are bytes; the signature method is not the empty text, and no
  -- OAuth parameter holds a line feed.
  pub verify-header :
      (query text : Bytes) (rack : RackRequest) (qs' : Params Bytes) (fallback : Option Bytes)
      → query_string parse_uri cgi_parse r ≡ ok query
      → cgi_parse query ≡ map single_item qs
      → Permᴰ qs' qs
      → merge (request_params rack) rack.query ≡ as_strings qs'
      → method_or rack.original_method rack.request_method ≡ r.method
      → rack.url ≡ o.request_uri
      → HasHeader text rack.env
      → o.realm ≡ none
      → is_filled (some method_sent) ≡ true
      → All (λ p. IsLine (shown p.1)) parameters_sent
      → SecretBytes o.consumer.secret
      → TokenBytes o.token
      → header generate_key generate_timestamp parse_uri cgi_parse hmac r o ≡ ok text
      → (rack_proxy rack o.unsigned_parameters >>= λ p.
          verify parse_uri hmac p (secrets_of generate_key generate_timestamp o) no_block fallback)
        ≡ ok true
  unfolding sign header_params new_signer secrets_of
  verify-header query text rack qs' fallback is_query parsed perm merged is_method is_url has_header
        no_realm filled lines secret_bytes token_bytes written =
      let secrets = secrets_of generate_key generate_timestamp o in
      let p = client_proxy r o qs parameters_sent in
      let (sig, is_sig, is_text) =
        header-signed generate_key generate_timestamp parse_uri cgi_parse hmac r o qs qs_nodup
          qs_plain query text is_query parsed written in
      let (m, is_m, signed) = >>=-eq-ok (method_of p o.consumer_signature_method) _ is_sig in
      let named =
        sym (
          method_of-sent generate_key generate_timestamp parse_uri cgi_parse hmac r o qs qs_nodup
            qs_plain o.consumer_signature_method filled)
        ∙ is_m in
      let line =
        signature-IsLine parse_uri hmac digest_bytes m (new_signer p secrets no_block) sig
          secret_bytes (token_secret-bytes o.token token_bytes) signed in
      let ps = arrived qs' perm sig lines line in
      let is_sent : header_text none ps ≡ text =
        sym (ap (λ realm. header_text realm ps) no_realm)
        ∙ sym (
            ap (λ all. header_text o.realm (shown_values (sort_params all)))
              (store-fresh signature_key (some sig) parameters_sent
                (oauth_parameters-unsigned generate_key generate_timestamp o)))
        ∙ is_text in
      let is_header : header_params rack ≡ ok ps =
        headers_from-oauth ps rack.env (subst (λ t. HasHeader t rack.env) (sym is_sent) has_header)
          (parse_header-sent parameters_sent sig (sendable lines) line)
          (arrived_sent_oauth qs' perm sig lines line) in
      let is_params =
        rack_parameters-received qs' ps (arrived_nodup qs' perm sig lines line)
          (arrived_plain qs' perm sig lines line) (arrived_sent_nodup qs' perm sig lines line)
          (arrived_sent_oauth qs' perm sig lines line) rack merged is_header in
      ap (λ m. m >>= λ p'. verify parse_uri hmac p' secrets no_block fallback)
        (rack_proxy-arrived r o rack (qs' ++ ps) is_params is_method is_url)
      ∙ arrived-check qs' perm sig lines line m fallback filled named signed
