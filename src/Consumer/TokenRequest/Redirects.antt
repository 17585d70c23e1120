-- ===== src/Consumer/TokenRequest/Redirects.antt =====
-- Where redirects lead: without an opt-in, to the connection of the first request.
use oauth.Prelude.{
  ℕ, zero, suc, ◌≡◌, refl, sym, ◌∙◌, true, false, Option, some, inl, inr, Bool-cases, [], ◌∷◌,
  Bytes, codes, arith, All, All-append,
}
use oauth.Prelude.Lines.{start_with, some_line_starts}
use oauth.Uri.{Uri}
use mathlib.Core.Option.{some-injective}
use oauth.Outcome.{Outcome, ok, raise, >>=-eq-ok}
use oauth.Consumer.{
  UriLib, Settings, Connection, RequestOptions, Response, Trace, request, request_to, connect,
  send_over, http, create_http, over_path, over_url, parsed,
}
use oauth.Consumer.TokenRequest.{
  Next, done, failed, redirect, token_request_options, token_request_cross_origin,
  token_request_cross_origin_redirects, token_request_redirect_path, after_request, resume,
  token_request,
}
use oauth.Consumer.TokenRequest.Inversion.{after_request-Redirected}

slash_of_start :
    (path : Bytes) → start_with path (codes "/") ≡ true → some_line_starts (codes "/") path ≡ true
unfolding some_line_starts
slash_of_start path h = rw h

same_origin_path :
    (lib : UriLib) (settings : Settings) (current redirected : Uri)
    → token_request_cross_origin current redirected ≡ false
    → token_request_redirect_path lib settings current redirected ≡ lib.request_uri redirected
unfolding token_request_redirect_path
same_origin_path lib settings current redirected h = rw h

keep_allowed :
    (settings : Settings) (o : RequestOptions) (count : Option ℕ)
    → token_request_cross_origin_redirects settings (record o { redirect_count = count })
      ≡ token_request_cross_origin_redirects settings o
unfolding token_request_cross_origin_redirects
keep_allowed settings o count = refl

module _ {W : Type 0} (lib : UriLib) (settings : Settings)
    (send : W → Connection → Bytes → RequestOptions → W × Outcome Response)
    -- `request_uri` of an HTTP URI begins with a slash.
    (slash : (u : Uri) → start_with (lib.request_uri u) (codes "/") ≡ true) where
  -- A redirect without an opt-in goes to a path of the same origin, and asks for none either.
  Redirected-slash :
      (path : Bytes) (o : RequestOptions) (answer : Outcome Response) (path' : Bytes)
      (o' : RequestOptions)
      → token_request_cross_origin_redirects settings o ≡ false
      → after_request lib settings path o answer ≡ redirect path' o'
      → (start_with path' (codes "/") ≡ true)
        × (token_request_cross_origin_redirects settings o' ≡ false)
  Redirected-slash path o answer path' o' closed h =
      let (location, (current, redirected, is_current, is_redirected, f)) =
        after_request-Redirected lib settings path o answer h in
      elim f.allowed [
        | inl same ↦ (
          rw (f.target, same_origin_path lib settings current redirected same) (slash redirected),
          rw (f.counted, keep_allowed settings o _) closed,
        )
        | inr opened ↦ absurd (cc)
      ]

  connect-slash :
      (c : Connection) (path : Bytes)
      → start_with path (codes "/") ≡ true
      → connect lib settings send (some c) path ≡ (some c, ok (c, path))
  unfolding connect http
  connect-slash c path h = rw (slash_of_start path h)

  over_path-target :
      (old : Option Connection) (path : Bytes) (m : Outcome Connection) {c : Connection} {p : Bytes}
      → (over_path lib settings send old path m).1 ≡ ok (c, p)
      → (over_path lib settings send old path m).0 ≡ some c
  unfolding over_path
  over_path-target old path (raise e) h = cc
  over_path-target old path (ok c) h = cc

  over_url-target :
      (old : Option Connection) (path : Bytes) (m : Outcome Connection) {c : Connection} {p : Bytes}
      → (over_url lib settings send old path m).1 ≡ ok (c, p)
      → (over_url lib settings send old path m).0 ≡ some c
  unfolding over_url
  over_url-target old path (raise e) h = cc
  over_url-target old path (ok c) h = ground (arith, >>=-eq-ok (parsed (lib.parse path)) _ h)

  -- What is sent goes over the connection that `connect` has opened.
  connect-target :
      (old : Option Connection) (path : Bytes) {c : Connection} {p : Bytes}
      → (connect lib settings send old path).1 ≡ ok (c, p)
      → (connect lib settings send old path).0 ≡ some c
  unfolding connect
  connect-target old path h = elim (Bool-cases (some_line_starts (codes "/") path)) [
    | inl slashed ↦
        rw slashed (over_path-target old path (http lib settings send old) (rw slashed at h))
    | inr url ↦
        rw url (over_url-target old path (create_http lib settings send (some path)) (rw url at h))
  ]

  kept :
      (c : Connection) (t : Trace W) (path : Bytes)
      → t.http ≡ some c
      → start_with path (codes "/") ≡ true
      → (connect lib settings send t.http path).0 ≡ some c
  kept c t path is_c slashed = rw (is_c, connect-slash c path slashed)

  -- The connection is `c`, and nothing has been sent over another one.
  abbrev pub Over : Connection → Trace W → Type 0
  Over c t = (t.http ≡ some c) × All (λ s. s.0 ≡ c) t.sent

  request_to-Over :
      (c : Connection) (t : Trace W) (o : RequestOptions) (target : Outcome (Connection × Bytes))
      → Over c t
      → ((d : Connection) (p : Bytes) → target ≡ ok (d, p) → d ≡ c)
      → Over c (request_to lib settings send t o target).0
  unfolding request_to send_over
  request_to-Over c t o (raise e) over same = over
  request_to-Over c t o (ok (d, p)) over same =
      (over.0, All-append _ t.sent ((d, p) ∷ []) over.1 (same d p refl, tt))

  request-Over :
      (c : Connection) (t : Trace W) (path : Bytes) (o : RequestOptions)
      → (connect lib settings send t.http path).0 ≡ some c
      → All (λ s. s.0 ≡ c) t.sent
      → Over c (request lib settings send t path o).0
  unfolding request
  request-Over c t path o opened sent =
      request_to-Over c _ o (connect lib settings send t.http path).1 (opened, sent)
        λ d p e. some-injective d c (sym (connect-target t.http path e) ∙ opened)

  resume-Over :
      (c : Connection) (again : Trace W → Bytes → RequestOptions → Option (Trace W × Outcome Bytes))
      (t : Trace W) (next : Next) {r : Trace W × Outcome Bytes}
      → Over c t
      → ((path : Bytes) (o : RequestOptions)
          → next ≡ redirect path o
          → again t path o ≡ some r
          → Over c r.0)
      → resume lib settings send again t next ≡ some r
      → Over c r.0
  unfolding resume
  resume-Over c again t (done body) {r} over step e =
      let same = some-injective _ r e in rw (← same) over
  resume-Over c again t (failed x) {r} over step e =
      let same = some-injective _ r e in rw (← same) over
  resume-Over c again t (redirect path o) over step e = step path o refl e

  -- While following redirects without an opt-in, a token request sends nothing over another
  -- connection than the one that its first path opens or finds, if nothing was sent over another
  -- one before, and `request_uri` of a URI begins with a slash.
  pub token_request-Over :
      (c : Connection) (fuel : ℕ) (t : Trace W) (path : Bytes) (o : RequestOptions)
      {r : Trace W × Outcome Bytes}
      → token_request_cross_origin_redirects settings o ≡ false
      → (connect lib settings send t.http path).0 ≡ some c
      → All (λ s. s.0 ≡ c) t.sent
      → token_request lib settings send fuel t path o ≡ some r
      → Over c r.0
  unfolding token_request
  token_request-Over c zero t path o closed opened sent e = cc
  token_request-Over c (suc fuel) t path o {r} closed opened sent e =
      let answer = request lib settings send t path (token_request_options o) in
      let over = request-Over c t path (token_request_options o) opened sent in
      resume-Over c (token_request lib settings send fuel) answer.0
        (after_request lib settings path o answer.1) over
        (λ path' o' is_redirect again.
          let (slashed, closed') = Redirected-slash path o answer.1 path' o' closed is_redirect in
          token_request-Over c fuel answer.0 path' o' closed' (kept c answer.0 path' over.0 slashed)
            over.1 again)
        e
