-- ===== src/Consumer/TokenRequest/Inversion.antt =====
-- What is known when a response is answered by another request.
use oauth.Prelude.{
  ℕ, ◌+◌, ◌≤◌, ◌≡◌, refl, ◌⊎◌, inl, inr, Bool, true, false, not, ◌&&◌, Option, none, some, Bytes,
  arith,
}
use oauth.Uri.{Uri}
use oauth.Outcome.{Outcome, ok, raise}
use oauth.Consumer.{UriLib, Settings, RequestOptions, Response}
use oauth.Consumer.TokenRequest.{
  decide, redirect, count_or_zero, token_request_max_redirects, token_request_cross_origin,
  token_request_cross_origin_redirects, token_request_redirect_path, token_request_redirect_uri,
  token_request_uri, follow, follow_location, after_current, after_redirect, after_response,
  after_request,
}

-- The request that answers a redirect from `current` to `redirected`.
pub record Followed (lib : UriLib) (settings : Settings) (o : RequestOptions) (path' : Bytes)
    (o' : RequestOptions) (current redirected : Uri) : Type 0 where
  pub limit : ℕ
  pub has_limit : token_request_max_redirects settings o ≡ some limit
  pub within : count_or_zero o.redirect_count + 1 ≤ limit
  pub counted : o' ≡ record o { redirect_count = some (count_or_zero o.redirect_count + 1) }
  pub target : path' ≡ token_request_redirect_path lib settings current redirected
  pub allowed :
      (token_request_cross_origin current redirected ≡ false)
      ⊎ (token_request_cross_origin_redirects settings o ≡ true)

decide-redirect :
    (max : Option ℕ) (refused : Bool) (code : ℕ) (o : RequestOptions) (path : Bytes) {path' : Bytes}
    {o' : RequestOptions}
    → decide max refused code o path ≡ redirect path' o'
    → (limit : ℕ) × (max ≡ some limit)
      × (count_or_zero o.redirect_count + 1 ≤ limit)
      × (o' ≡ record o { redirect_count = some (count_or_zero o.redirect_count + 1) })
      × (path' ≡ path)
      × (refused ≡ false)
unfolding decide
decide-redirect none refused code o path h = cc
decide-redirect (some limit) refused code o path h =
    (limit, refl, ground arith, ground arith, ground arith, ground arith)

not-refused : (a b : Bool) → (a && not b) ≡ false → (a ≡ false) ⊎ (b ≡ true)
not-refused true true h = inr refl
not-refused true false h = cc
not-refused false b h = inl refl

module _ (lib : UriLib) (settings : Settings) where
  follow-Followed :
      (code : ℕ) (o : RequestOptions) (current redirected : Uri) {path' : Bytes}
      {o' : RequestOptions}
      → follow lib settings code o current redirected ≡ redirect path' o'
      → Followed lib settings o path' o' current redirected
  unfolding follow
  follow-Followed code o current redirected h =
      let (limit, has, within, counted, target, allowed) =
        decide-redirect (token_request_max_redirects settings o) _ code o
          (token_request_redirect_path lib settings current redirected) h in
      record {
        limit = limit;
        has_limit = has;
        within = within;
        counted = counted;
        target = target;
        allowed = not-refused _ _ allowed;
      }

  -- A redirect comes from a location, which is joined to the URI of the path.
  abbrev pub Redirected : Bytes → RequestOptions → Option Bytes → Bytes → RequestOptions → Type 0
  Redirected path o location path' o' =
      (current redirected : Uri) × (token_request_uri lib settings path ≡ ok current)
      × (token_request_redirect_uri lib settings current location ≡ ok (some redirected))
      × Followed lib settings o path' o' current redirected

  follow_location-Followed :
      (code : ℕ) (o : RequestOptions) (current : Uri) (found : Outcome (Option Uri)) {path' : Bytes}
      {o' : RequestOptions}
      → follow_location lib settings code o current found ≡ redirect path' o'
      → (redirected : Uri) × (found ≡ ok (some redirected))
        × Followed lib settings o path' o' current redirected
  unfolding follow_location
  follow_location-Followed code o current (raise e) h = cc
  follow_location-Followed code o current (ok none) h = cc
  follow_location-Followed code o current (ok (some redirected)) h =
      (redirected, refl, follow-Followed code o current redirected h)

  after_current-Followed :
      (o : RequestOptions) (rsp : Response) (found : Outcome Uri) {path' : Bytes}
      {o' : RequestOptions}
      → after_current lib settings o rsp found ≡ redirect path' o'
      → (current redirected : Uri) × (found ≡ ok current)
        × (token_request_redirect_uri lib settings current rsp.location ≡ ok (some redirected))
        × Followed lib settings o path' o' current redirected
  unfolding after_current
  after_current-Followed o rsp (raise e) h = cc
  after_current-Followed o rsp (ok current) h =
      let (redirected, found, followed) = follow_location-Followed rsp.code o current _ h in
      (current, redirected, refl, found, followed)

  after_redirect-Redirected :
      (path : Bytes) (o : RequestOptions) (rsp : Response) {path' : Bytes} {o' : RequestOptions}
      → after_redirect lib settings path o rsp ≡ redirect path' o'
      → Redirected path o rsp.location path' o'
  unfolding after_redirect
  after_redirect-Redirected path o rsp h =
      after_current-Followed o rsp (token_request_uri lib settings path) h

  after_response-redirect :
      (path : Bytes) (o : RequestOptions) (rsp : Response) {path' : Bytes} {o' : RequestOptions}
      → after_response lib settings path o rsp ≡ redirect path' o'
      → after_redirect lib settings path o rsp ≡ redirect path' o'
  unfolding after_response
  after_response-redirect path o rsp h = ground arith

  -- The request was answered by a response that redirects, and the redirect was allowed.
  pub after_request-Redirected :
      (path : Bytes) (o : RequestOptions) (answer : Outcome Response) {path' : Bytes}
      {o' : RequestOptions}
      → after_request lib settings path o answer ≡ redirect path' o'
      → (location : Option Bytes) × Redirected path o location path' o'
  unfolding after_request
  after_request-Redirected path o (raise e) h = cc
  after_request-Redirected path o (ok rsp) h =
      (rsp.location, after_redirect-Redirected path o rsp (after_response-redirect path o rsp h))
