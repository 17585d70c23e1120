-- ===== src/Consumer/AccessToken/Reset.antt =====
-- After the requests of access tokens, to whatever addresses, the consumer is at its site again.
use mathlib.Core.Path.{subst}
use oauth.Prelude.{
  ◌≡◌, refl, sym, ◌∙◌, List, [], ◌∷◌, Bool, true, false, inl, inr, Bool-cases, Option-cases, Option,
  none, some, Bytes, codes,
}
use mathlib.Core.Bool.{true≢false}
use mathlib.Core.Option
use mathlib.Core.Option.{some-injective}
use oauth.Prelude.Ascii.{downcase}
use oauth.Prelude.Lines.{some_line_starts}
use oauth.Uri.{Uri}
use oauth.Outcome.{Outcome, ok, raise, ok-injective, ◌>>=◌}
use oauth.Consumer.{
  UriLib, Settings, Connection, RequestOptions, Response, Trace, parsed, connection_to, slash_first,
  http_uri, endpoint_or, create_http, http, over_path, over_url, connect, request_to, send_over,
  request,
}
use oauth.Consumer.AccessToken.{
  Held, set_http, set_uri, found_uri, get_uri, token_request_over, ensured, after_uri,
  request_elsewhere, is_absolute, is_service_uri_different, request_by_uri, access_by,
  access_request, no_options,
}

-- Two connections to one host, whose name is in any case.
abbrev pub SameConnection : Connection → Connection → Type 0
SameConnection c d =
    (Option.map downcase c.host ≡ Option.map downcase d.host)
    × (c.port ≡ d.port)
    × (c.use_ssl ≡ d.use_ssl)

-- No connection yet, or one like that to the site.
abbrev pub AtHome : Connection → Option Connection → Type 0
AtHome home none = Unit
AtHome home (some c) = SameConnection c home

module _ {W : Type 0} (lib : UriLib) (uri_eq : Uri → Uri → Bool) (settings : Settings)
    (send : W → Connection → Bytes → RequestOptions → W × Outcome Response) (home : Connection)
    (is_home : create_http lib settings send none ≡ ok home)
    -- Equal URIs have the same host, in any case, the same port and the same scheme.
    (equal : (u v : Uri) → uri_eq u v ≡ true → SameConnection (connection_to u) (connection_to v))
    -- A reference without a scheme that has a host begins with slashes.
    (authority : (text host : Bytes) (u : Uri)
      → lib.parse text ≡ some u
      → u.scheme ≡ none
      → u.host ≡ some host
      → slash_first text ≡ true) where
  -- The consumer is at its site.
  abbrev pub IsHome : Held W → Type 0
  IsHome h =
      AtHome home h.trace.http × ((u : Uri) → h.uri ≡ some u → lib.parse settings.site ≡ some u)

  set_uri-http :
      (u : Uri) (h : Held W)
      → (set_uri lib uri_eq settings send u h).0
        ≡ record h { trace = record h.trace { http = some home }; uri = some u }
  unfolding set_uri set_http
  set_uri-http u h = rw is_home refl

  request_to-http :
      (t : Trace W) (o : RequestOptions) (target : Outcome (Connection × Bytes))
      → (request_to lib settings send t o target).0.http ≡ t.http
  unfolding request_to send_over
  request_to-http t o (raise e) = refl
  request_to-http t o (ok (c, p)) = refl

  request-http :
      (t : Trace W) (path : Bytes) (o : RequestOptions)
      → (request lib settings send t path o).0.http ≡ (connect lib settings send t.http path).0
  unfolding request
  request-http t path o = request_to-http _ o (connect lib settings send t.http path).1

  same_refl : (c d : Connection) → c ≡ d → SameConnection c d
  same_refl c d e = rw e (refl, refl, refl)

  endpoint_or-some :
      (e : Bytes) (url : Option Bytes)
      → settings.request_endpoint ≡ some e
      → endpoint_or lib settings send url ≡ some e
  unfolding endpoint_or
  endpoint_or-some e url h = rw h refl

  endpoint_or-none :
      (url : Option Bytes)
      → settings.request_endpoint ≡ none
      → endpoint_or lib settings send url ≡ url
  unfolding endpoint_or
  endpoint_or-none url h = rw h refl

  -- The URI that `create_http` takes for an address with and without a host.
  http_uri-slash :
      (url : Bytes)
      → slash_first url ≡ true
      → http_uri lib settings send (some url) ≡ parsed (lib.parse settings.site)
  unfolding http_uri
  http_uri-slash url h = rw h refl

  http_uri-hostless :
      (url : Bytes) (u : Uri)
      → slash_first url ≡ false
      → lib.parse url ≡ some u
      → u.host ≡ none
      → http_uri lib settings send (some url) ≡ parsed (lib.parse settings.site)
  unfolding http_uri parsed
  http_uri-hostless url u h is_u is_host = rw (h, is_u, is_host) refl

  http_uri-host :
      (url host : Bytes) (u : Uri)
      → slash_first url ≡ false
      → lib.parse url ≡ some u
      → u.host ≡ some host
      → http_uri lib settings send (some url) ≡ ok u
  unfolding http_uri parsed
  http_uri-host url host u h is_u is_host = simp (h, is_u, is_host)

  -- An address that is not another service's is the site's, or equal to it.
  not_different :
      (text host : Bytes) (u site : Uri)
      → lib.parse text ≡ some u
      → u.host ≡ some host
      → slash_first text ≡ false
      → is_service_uri_different lib uri_eq settings send u site ≡ false
      → uri_eq u site ≡ true
  unfolding is_service_uri_different is_absolute
  not_different text host u site is_u is_host slash same = elim (Bool-cases (uri_eq u site)) [
    | inl e ↦ e
    | inr other ↦ elim (Option-cases u.scheme) [
      | inl none_given ↦
          absurd (true≢false (sym (authority text host u is_u none_given is_host) ∙ slash))
      | inr (s, given) ↦ absurd (true≢false (rw (other, given) at same))
    ]
  ]

  create_http-uri :
      (url : Option Bytes) (m : Outcome Uri)
      → settings.request_endpoint ≡ none
      → http_uri lib settings send url ≡ m
      → create_http lib settings send url ≡ (m >>= λ u. ok (connection_to u))
  unfolding create_http
  create_http-uri url m no_endpoint is_m = rw (endpoint_or-none url no_endpoint, is_m) refl

  create_http-endpoint :
      (e : Bytes) (url : Option Bytes)
      → settings.request_endpoint ≡ some e
      → create_http lib settings send url ≡ create_http lib settings send none
  unfolding create_http
  create_http-endpoint e url is_e =
      rw (endpoint_or-some e url is_e, endpoint_or-some e none is_e) refl

  site_home :
      (site : Uri)
      → settings.request_endpoint ≡ none
      → lib.parse settings.site ≡ some site
      → connection_to site ≡ home
  unfolding http_uri parsed
  site_home site no_endpoint is_site =
      ok-injective (sym (create_http-uri none (ok site) no_endpoint (rw is_site refl)) ∙ is_home)

  create_http-home :
      (url : Bytes)
      → settings.request_endpoint ≡ none
      → http_uri lib settings send (some url) ≡ parsed (lib.parse settings.site)
      → create_http lib settings send (some url) ≡ ok home
  unfolding http_uri
  create_http-home url no_endpoint is_site =
      create_http-uri (some url) _ no_endpoint is_site
      ∙ sym (create_http-uri none _ no_endpoint refl)
      ∙ is_home

  -- The connection that `create_http` opens for such an address.
  create_http-same :
      (path : Bytes) (u site : Uri) (c : Connection)
      → lib.parse path ≡ some u
      → lib.parse settings.site ≡ some site
      → is_service_uri_different lib uri_eq settings send u site ≡ false
      → create_http lib settings send (some path) ≡ ok c
      → SameConnection c home
  unfolding parsed
  create_http-same path u site c is_u is_site same opened =
      elim (Option-cases settings.request_endpoint) [
        | inr (e, is_e) ↦
            same_refl c home
              (ok-injective (sym opened ∙ create_http-endpoint e (some path) is_e ∙ is_home))
        | inl no_endpoint ↦ elim (Bool-cases (slash_first path)) [
          | inl slash ↦ same_refl c home (
              ok-injective
                (sym opened ∙ create_http-home path no_endpoint (http_uri-slash path slash)))
          | inr slash ↦ elim (Option-cases u.host) [
            | inl hostless ↦ same_refl c home (
                ok-injective (
                  sym opened
                  ∙ create_http-home path no_endpoint
                      (http_uri-hostless path u slash is_u hostless)))
            | inr (host, is_host) ↦ subst (SameConnection c) (site_home site no_endpoint is_site) (
                subst (λ d. SameConnection d (connection_to site))
                  (ok-injective (
                    sym (
                      create_http-uri (some path) (ok u) no_endpoint
                        (http_uri-host path host u slash is_u is_host))
                    ∙ opened))
                  (equal u site (not_different path host u site is_u is_host slash same)))
          ]
        ]
      ]

  over_path-AtHome :
      (old : Option Connection) (path : Bytes)
      → AtHome home old
      → AtHome home (over_path lib settings send old path (http lib settings send old)).0
  unfolding over_path http
  over_path-AtHome none path at_home = rw is_home (same_refl home home refl)
  over_path-AtHome (some c) path at_home = at_home

  over_url-AtHome :
      (old : Option Connection) (path : Bytes) (m : Outcome Connection)
      → AtHome home old
      → ((c : Connection) → m ≡ ok c → SameConnection c home)
      → AtHome home (over_url lib settings send old path m).0
  unfolding over_url
  over_url-AtHome old path (raise e) at_home same = at_home
  over_url-AtHome old path (ok c) at_home same = same c refl

  -- A request for an address that is not another service's.
  request-AtHome :
      (t : Trace W) (path : Bytes) (u site : Uri)
      → AtHome home t.http
      → lib.parse path ≡ some u
      → lib.parse settings.site ≡ some site
      → is_service_uri_different lib uri_eq settings send u site ≡ false
      → AtHome home (request lib settings send t path no_options).0.http
  unfolding connect
  request-AtHome t path u site at_home is_u is_site same =
      subst (AtHome home) (sym (request-http t path no_options))
        (elim (Bool-cases (some_line_starts (codes "/") path)) [
          | inl slashed ↦ rw slashed (over_path-AtHome t.http path at_home)
          | inr url ↦ rw url (
              over_url-AtHome t.http path (create_http lib settings send (some path)) at_home
                (λ c. create_http-same path u site c is_u is_site same))
        ])

  ensured-IsHome :
      {A B : Type 0} (answer : Outcome A) (m : Held W × Outcome B)
      → IsHome m.0
      → IsHome (ensured answer m).0
  unfolding ensured
  ensured-IsHome answer (h, raise e) at_home = at_home
  ensured-IsHome answer (h, ok b) at_home = at_home

  -- After a request elsewhere the consumer is reset, whether it was answered or raised.
  request_elsewhere-IsHome :
      (request_uri site : Uri) (path : Bytes) (h : Held W)
      → lib.parse settings.site ≡ some site
      → IsHome (request_elsewhere lib uri_eq settings send request_uri site path h).0
  unfolding request_elsewhere
  request_elsewhere-IsHome request_uri site path h is_site =
      let (h', answer) =
        after_uri lib uri_eq settings send path (set_uri lib uri_eq settings send request_uri h) in
      ensured-IsHome answer (set_uri lib uri_eq settings send site h')
        (subst IsHome (sym (set_uri-http site h')) (same_refl home home refl, λ u e. is_site ∙ e))

  request_by_uri-IsHome :
      (request_uri site : Uri) (path : Bytes) (h : Held W)
      → lib.parse path ≡ some request_uri
      → lib.parse settings.site ≡ some site
      → IsHome h
      → IsHome (request_by_uri lib uri_eq settings send request_uri path (h, ok site)).0
  unfolding request_by_uri token_request_over
  request_by_uri-IsHome request_uri site path h is_u is_site (at_home, is_uri) =
      elim (Bool-cases (is_service_uri_different lib uri_eq settings send request_uri site)) [
        | inl other ↦ rw other (request_elsewhere-IsHome request_uri site path h is_site)
        | inr same ↦
            rw same (request-AtHome h.trace path request_uri site at_home is_u is_site same, is_uri)
      ]

  found_by :
      (request_uri : Uri) (path : Bytes) (h : Held W) (site : Option Uri)
      → lib.parse path ≡ some request_uri
      → lib.parse settings.site ≡ site
      → IsHome h
      → IsHome
          (request_by_uri lib uri_eq settings send request_uri path
            (found_uri lib uri_eq settings send h (parsed site))).0
  unfolding found_uri parsed request_by_uri
  found_by request_uri path h none is_u is_site at_home = at_home
  found_by request_uri path h (some site) is_u is_site (at_home, is_uri) =
      request_by_uri-IsHome request_uri site path (record h { uri = some site }) is_u is_site
        (at_home, λ u e. is_site ∙ e)

  got_by :
      (request_uri : Uri) (path : Bytes) (t : Trace W) (uri : Option Uri)
      → lib.parse path ≡ some request_uri
      → IsHome (record { trace = t; uri = uri })
      → IsHome
          (request_by_uri lib uri_eq settings send request_uri path
            (get_uri lib uri_eq settings send (record { trace = t; uri = uri }))).0
  unfolding get_uri
  got_by request_uri path t none is_u at_home = found_by request_uri path _ _ is_u refl at_home
  got_by request_uri path t (some site) is_u at_home =
      request_by_uri-IsHome request_uri site path _ is_u (at_home.1 site refl) at_home

  access_by-IsHome :
      (path : Bytes) (h : Held W) (m : Option Uri)
      → lib.parse path ≡ m
      → IsHome h
      → IsHome (access_by lib uri_eq settings send path h (parsed m)).0
  unfolding access_by parsed
  access_by-IsHome path h none is_u at_home = at_home
  access_by-IsHome path h (some u) is_u at_home = got_by u path h.trace h.uri is_u at_home

  -- The state after requests of access tokens, whatever they answer or raise.
  abbrev pub access_requests : List Bytes → Held W → Held W
  access_requests [] h = h
  access_requests (path ∷ paths) h =
      access_requests paths (access_request lib uri_eq settings send path h).0

  access_requests-IsHome :
      (paths : List Bytes) (h : Held W) → IsHome h → IsHome (access_requests paths h)
  unfolding access_request
  access_requests-IsHome [] h at_home = at_home
  access_requests-IsHome (path ∷ paths) h at_home =
      access_requests-IsHome paths _ (access_by-IsHome path h _ refl at_home)

  over_path-home :
      (old : Option Connection) (path : Bytes)
      → AtHome home old
      → (c : Connection) × (over_path lib settings send old path (http lib settings send old)
          ≡ (some c, ok (c, path)))
        × SameConnection c home
  unfolding over_path http
  over_path-home none path at_home = (home, rw is_home refl, same_refl home home refl)
  over_path-home (some c) path at_home = (c, refl, at_home)

  -- After any requests of access tokens, to whatever addresses and whether they are answered or
  -- raise, a request for a path goes over a connection to the site, up to the case of its name: if
  -- the consumer was connected to its site before or not at all, if the site can be connected to,
  -- and if equal URIs agree on host, port and scheme, and a host stands behind a scheme or slashes.
  pub connect-access_requests :
      (paths : List Bytes) (h : Held W) (path : Bytes)
      → IsHome h
      → some_line_starts (codes "/") path ≡ true
      → (c : Connection) × (connect lib settings send (access_requests paths h).trace.http path
          ≡ (some c, ok (c, path)))
        × SameConnection c home
  unfolding connect
  connect-access_requests paths h path at_home slashed = rw slashed (
      over_path-home (access_requests paths h).trace.http path
        (access_requests-IsHome paths h at_home).0)
