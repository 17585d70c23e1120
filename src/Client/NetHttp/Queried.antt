-- ===== src/Client/NetHttp/Queried.antt =====
-- What the client signs when it writes the OAuth parameters into the query of its path.
use oauth.Prelude.{
  ◌<◌, ◌≡◌, ◌≢◌, refl, sym, ap, ◌∙◌, [], ◌∷◌, ◌++◌, append-nil, All, All-append, Bool, true, false,
  ◌&&◌, Option, none, some, Bytes, codes, map,
}
use oauth.Prelude.Split.{join}
use oauth.Params.{Items, Params, NodupKeys, lookup}
use oauth.Params.Appended.{lookup-append_fresh, All-apart, NodupKeys-append}
use oauth.Params.Mapped.{NodupKeys-map, All-map_keys, lookup-map}
use oauth.Uri.{Uri}
use oauth.Outcome.{Outcome, ok, ◌>>=◌, >>=-eq-ok, ok-injective}
use oauth.Helper.Normalize.RoundTrip.{BytePairs}
use oauth.RequestProxy.{signature_key}
use oauth.RequestProxy.NetHttp.{
  HttpRequest, form_url_encoded, query_string, query_params, query_of, query_parts, oauth_text,
  auth_header_params, compact, all_parameters, add_parameters, http_proxy,
}
use oauth.RequestProxy.Rack.{is_oauth_key}
use oauth.Signature.{Method, no_block, sign}
use oauth.Client.{
  HelperOptions, given_or, is_filled, shown, shown_pair, shown_values, oauth_parameters, secrets_of,
  helper_signature,
}
use oauth.Client.Keys.{
  signature_method_key, oauth_parameters-NodupKeys, oauth_parameters-oauth,
  oauth_parameters-unsigned, lookup-signature_method,
}
use oauth.Client.Received.{shown_pair-key}
use oauth.Client.Proxies.{client_proxy}
use oauth.Client.Sent.{single_item}
use oauth.Client.NetHttp.{
  form_of, amended_query, with_path, path_with_oauth, path_with_signature, set_oauth_query_string,
  query_path, sign_path,
}
use oauth.Client.NetHttp.Forms.{own_query, amended_query-own, path_with_signature-form}

-- What `URI` does with a path whose query is a form: it reads what it has written, and writes the
-- query last.
abbrev pub ReadsForms : (Bytes → Option Uri) → (Uri → Bytes) → Bytes → Uri → Type 0
ReadsForms parse_uri to_s front u =
    (ps : Params Bytes)
    → BytePairs ps
    → (to_s (record u { query = some (form_of ps) }) ≡ front ++ form_of ps)
      × (parse_uri (front ++ form_of ps) ≡ some (record u { query = some (form_of ps) }))

-- What a parser makes of a form of different keys.
abbrev pub ParsesForms : {V : Type 0} → (Bytes → V) → (Params Bytes → V) → Type 0
ParsesForms parse result =
    (ps : Params Bytes) → NodupKeys ps → BytePairs ps → parse (form_of ps) ≡ result ps

-- A key of ASCII characters that a parser of nested parameters takes as it is: without brackets.
abbrev pub IsFlat : Bytes → Type 0
IsFlat [] = ⊥
IsFlat (c ∷ key) = All (λ d. (d < 128) × (d ≢ b'[') × (d ≢ b']')) (c ∷ key)

-- What such a parser makes of a form of different keys that are flat.
abbrev pub ParsesFlat : {V : Type 0} → (Bytes → V) → (Params Bytes → V) → Type 0
ParsesFlat parse result =
    (ps : Params Bytes)
    → NodupKeys ps
    → BytePairs ps
    → All (λ p. IsFlat p.0) ps
    → parse (form_of ps) ≡ result ps

module _ (generate_key generate_timestamp : Bytes) (o : HelperOptions) (qs : Params Bytes)
    (qs_nodup : NodupKeys qs) (qs_plain : All (λ p. is_oauth_key p.0 ≡ false) qs) where
  -- The parameters that the query carries: the path's own, and OAuth's.
  abbrev pub queried : Params Bytes
  queried = qs ++ shown_values (oauth_parameters generate_key generate_timestamp o)

  shown-oauth :
      All
        (λ p. is_oauth_key p.0 ≡ true)
        (shown_values (oauth_parameters generate_key generate_timestamp o))
  unfolding shown_values
  shown-oauth =
      All-map_keys shown_pair shown_pair-key (λ k. is_oauth_key k ≡ true) _
        (oauth_parameters-oauth generate_key generate_timestamp o)

  pub queried-NodupKeys : NodupKeys queried
  unfolding shown_values
  queried-NodupKeys =
      NodupKeys-append is_oauth_key qs _ qs_nodup
        (NodupKeys-map shown_pair shown_pair-key _
          (oauth_parameters-NodupKeys generate_key generate_timestamp o))
        qs_plain shown-oauth

  pub queried-unsigned : All (λ p. p.0 ≢ signature_key) queried
  unfolding shown_values is_oauth_key
  queried-unsigned =
      All-append _ qs _ (All-apart is_oauth_key signature_key false qs (λ e. cc) qs_plain) (
        All-map_keys shown_pair shown_pair-key (λ k. k ≢ signature_key) _
          (oauth_parameters-unsigned generate_key generate_timestamp o))

  abbrev pub method_sent : Bytes
  method_sent = given_or o.signature_method (codes "HMAC-SHA1")

  pub lookup-queried_method :
      is_filled (some method_sent) ≡ true → lookup signature_method_key queried ≡ some method_sent
  unfolding shown_values shown_pair shown is_oauth_key
  lookup-queried_method filled =
      lookup-append_fresh signature_method_key qs _
        (All-apart is_oauth_key signature_method_key false qs (λ e. cc) qs_plain)
      ∙ lookup-map shown_pair shown_pair-key signature_method_key _ (some method_sent)
          (lookup-signature_method generate_key generate_timestamp o filled)

and_false : (a : Bool) → (a && false) ≡ false
and_false true = refl
and_false false = refl

-- Without a header and a form, the query is all that is parsed.
query_parts-plain :
    (parse_uri : Bytes → Option Uri) (cgi_parse : Bytes → Params Items) (r : HttpRequest)
    (query : Option Bytes)
    → r.authorization ≡ none
    → form_url_encoded r ≡ false
    → query_parts parse_uri cgi_parse r query ≡ query ∷ none ∷ []
unfolding query_parts auth_header_params oauth_text
query_parts-plain parse_uri cgi_parse r query no_header no_form =
    rw (no_header, no_form, and_false) refl

-- A hash in which a key is found is not empty.
found-cons :
    {V : Type 0} (key : Bytes) (ps : Params V) (v : V)
    → lookup key ps ≡ some v
    → (p : Bytes × V) × (rest : Params V) × (ps ≡ p ∷ rest)
unfolding lookup
found-cons key [] v h = cc
found-cons key (p ∷ ps) v h = (p, ps, refl)

module _ (generate_key generate_timestamp : Bytes) (parse_uri : Bytes → Option Uri)
    (to_s : Uri → Bytes) (cgi_parse : Bytes → Params Items) (hmac : Method → Bytes → Bytes → Bytes)
    (r : HttpRequest) (o : HelperOptions) (qs : Params Bytes) (qs_nodup : NodupKeys qs)
    (qs_plain : All (λ p. is_oauth_key p.0 ≡ false) qs) (u : Uri) (front : Bytes)
    (reads : ReadsForms parse_uri to_s front u)
    (parses : ParsesForms cgi_parse (map single_item)) where
  abbrev pub all : Params Bytes
  all = queried generate_key generate_timestamp o qs qs_nodup qs_plain

  path_with_oauth-form :
      u.query ≡ own_query qs
      → is_filled (some (given_or o.signature_method (codes "HMAC-SHA1"))) ≡ true
      → BytePairs all
      → path_with_oauth generate_key generate_timestamp to_s o u ≡ front ++ form_of all
  unfolding path_with_oauth shown_values
  path_with_oauth-form is_query filled bytes =
      let (p, rest, e) =
        found-cons signature_method_key (oauth_parameters generate_key generate_timestamp o) _
          (lookup-signature_method generate_key generate_timestamp o filled) in
      let shape : shown_values (oauth_parameters generate_key generate_timestamp o)
          ≡ shown_pair p ∷ shown_values rest =
        ap shown_values e in
      let is_amended : amended_query u.query
            (form_of (shown_values (oauth_parameters generate_key generate_timestamp o)))
          ≡ form_of all =
        ap
          (λ query.
            amended_query query
              (form_of (shown_values (oauth_parameters generate_key generate_timestamp o))))
          is_query
        ∙ ap (λ ps. amended_query (own_query qs) (form_of ps)) shape
        ∙ amended_query-own qs (shown_pair p) (shown_values rest)
        ∙ ap (λ ps. form_of (qs ++ ps)) (sym shape) in
      ap (λ query. to_s (record u { query = some query })) is_amended ∙ (reads all bytes).0

  query_string-form :
      r.authorization ≡ none
      → form_url_encoded r ≡ false
      → BytePairs all
      → query_string parse_uri cgi_parse (with_path (front ++ form_of all) r) ≡ ok (form_of all)
  unfolding query_string query_params query_of compact join with_path
  query_string-form no_header no_form bytes =
      let r' = with_path (front ++ form_of all) r in
      ap
        (λ found. query_of parse_uri cgi_parse found >>= λ query.
          ok (join (b'&' ∷ []) (compact (query_parts parse_uri cgi_parse r' query))))
        (reads all bytes).1
      ∙ ap (λ parts. ok (join (b'&' ∷ []) (compact parts)))
          (query_parts-plain parse_uri cgi_parse r' (some (form_of all)) no_header no_form)

  http_proxy-queried :
      r.authorization ≡ none
      → form_url_encoded r ≡ false
      → BytePairs all
      → http_proxy parse_uri cgi_parse (with_path (front ++ form_of all) r) (record {
        uri = o.request_uri;
        parameters = [];
        unsigned_parameters = o.unsigned_parameters;
      })
        ≡ ok (client_proxy r o all [])
  unfolding http_proxy all_parameters add_parameters with_path
  http_proxy-queried no_header no_form bytes =
      let is_parsed : cgi_parse (form_of all) ≡ map single_item all ++ [] =
        parses all (queried-NodupKeys generate_key generate_timestamp o qs qs_nodup qs_plain) bytes
        ∙ sym (append-nil (map single_item all)) in
      rw (query_string-form no_header no_form bytes, is_parsed) refl

  -- What the client has done when it returns a request: it has signed the parameters of the query,
  -- and put the signature behind them.
  pub queried-signed :
      (r' : HttpRequest)
      → parse_uri r.path ≡ some u
      → u.query ≡ own_query qs
      → is_filled (some (given_or o.signature_method (codes "HMAC-SHA1"))) ≡ true
      → BytePairs all
      → r.authorization ≡ none
      → form_url_encoded r ≡ false
      → set_oauth_query_string generate_key generate_timestamp parse_uri cgi_parse hmac to_s r o
        ≡ ok r'
      → (sig : Bytes) × (sign parse_uri hmac
            (client_proxy r o all [])
            (secrets_of generate_key generate_timestamp o)
            no_block
            o.consumer_signature_method
          ≡ ok sig)
        × (r'.path ≡ front ++ form_of (all ++ (signature_key, sig) ∷ []))
  unfolding set_oauth_query_string query_path sign_path helper_signature with_path
  queried-signed r' is_u is_query filled bytes no_header no_form written =
      let path_eq = path_with_oauth-form is_query filled bytes in
      let signs : Bytes → Outcome HttpRequest =
        λ path. sign_path generate_key generate_timestamp parse_uri cgi_parse hmac path r o in
      let written' : signs (front ++ form_of all) ≡ ok r' =
        sym (
          ap (query_path generate_key generate_timestamp parse_uri cgi_parse hmac to_s r o) is_u
          ∙ ap signs path_eq)
        ∙ written in
      let (sig, is_sig, result) =
        >>=-eq-ok
          (helper_signature generate_key generate_timestamp parse_uri cgi_parse hmac
            (with_path (front ++ form_of all) r) o [])
          _ written' in
      let (p, rest, e) =
        found-cons signature_method_key all _
          (lookup-queried_method generate_key generate_timestamp o qs qs_nodup qs_plain filled) in
      (
        sig,
        sym (
              ap
                (λ m. m >>= λ p.
                  sign parse_uri hmac p (secrets_of generate_key generate_timestamp o) no_block
                    o.consumer_signature_method)
                (http_proxy-queried no_header no_form bytes))
            ∙ is_sig,
        ap (λ q. q.path) (sym (ok-injective result))
            ∙ ap (λ ps. path_with_signature (front ++ form_of ps) sig) e
            ∙ path_with_signature-form front sig p rest
            ∙ ap (λ ps. front ++ form_of (ps ++ (signature_key, sig) ∷ [])) (sym e),
      )
