-- ===== src/Consumer/TokenRequest.antt =====
-- `token_request` of lib/oauth/consumer.rb and its helpers: a request that follows redirects.
pub mod Inversion
pub mod Redirects
pub mod Total
use oauth.Prelude.{
  ℕ, zero, suc, ◌+◌, List, [], ◌∷◌, ◌++◌, Bool, true, false, not, ◌&&◌, ◌||◌, Option, none, some,
  Bytes, codes, bytes_eq, ltb, leb, ◌==◌, if◌then◌else◌,
}
use oauth.Prelude.Ascii.{downcase}
use oauth.Uri.{Uri}
use oauth.Outcome.{
  Error, Outcome, ok, raise, unauthorized, http_error, argument_error, invalid_uri, ◌>>=◌,
}
use oauth.Consumer.{UriLib, Settings, Connection, RequestOptions, Response, Trace, parsed, request}

-- The keys of the redirects are not passed on.
unfoldable pub token_request_options : RequestOptions → RequestOptions
token_request_options o = record o {
  token_request = true;
  redirect_count = none;
  max_redirects = none;
  cross_origin_redirects = none;
}

-- `to_s` of nil is the empty text.
text_or_empty : Option Bytes → Bytes
text_or_empty none = []
text_or_empty (some t) = t

unfoldable pub token_request_effective_port : Uri → Option ℕ
unfolding text_or_empty
token_request_effective_port u = elim u.port [
  | some p ↦ some p
  | none ↦
      if bytes_eq (text_or_empty u.scheme) (codes "https")
      then some 443
      else if bytes_eq (text_or_empty u.scheme) (codes "http")
      then some 80
      else none
]

same_port : Option ℕ → Option ℕ → Bool
same_port none none = true
same_port (some a) (some b) = a == b
same_port _ _ = false

unfoldable pub token_request_cross_origin : Uri → Uri → Bool
unfolding text_or_empty token_request_effective_port same_port downcase bytes_eq
token_request_cross_origin u v =
    not (bytes_eq (downcase (text_or_empty u.scheme)) (downcase (text_or_empty v.scheme)))
    || not (bytes_eq (downcase (text_or_empty u.host)) (downcase (text_or_empty v.host)))
    || not (same_port (token_request_effective_port u) (token_request_effective_port v))

-- What follows a response: the end, or a request for another path.
pub data Next : Type 0 where
  done : Bytes → Next
  failed : Error → Next
  redirect : Bytes → RequestOptions → Next

unfoldable pub count_or_zero : Option ℕ → ℕ
count_or_zero none = 0
count_or_zero (some n) = n

-- `request_options[:token_request_max_redirects] || options[…]`
unfoldable pub token_request_max_redirects : Settings → RequestOptions → Option ℕ
token_request_max_redirects settings o = elim o.max_redirects [
  | some m ↦ some m
  | none ↦ settings.token_request_max_redirects
]

-- `request_options.fetch(:token_request_cross_origin_redirects, options[…])`
unfoldable pub token_request_cross_origin_redirects : Settings → RequestOptions → Bool
token_request_cross_origin_redirects settings o = elim o.cross_origin_redirects [
  | some b ↦ b
  | none ↦ settings.token_request_cross_origin_redirects
]

-- The two tests of a redirect to `path`, and its options. A nil maximum cannot be compared.
unfoldable pub decide : Option ℕ → Bool → ℕ → RequestOptions → Bytes → Next
decide none refused code o path = failed argument_error
decide (some limit) refused code o path =
    let count = count_or_zero o.redirect_count + 1 in
    if ltb limit count
    then failed (http_error code)
    else if refused
    then failed (http_error code)
    else redirect path (record o { redirect_count = some count })

module _ (lib : UriLib) (settings : Settings) where
  -- A relative path is taken to be one of the site.
  unfoldable pub token_request_uri : Bytes → Outcome Uri
  unfolding parsed
  token_request_uri path = parsed (lib.parse path) >>= λ u. elim u.scheme [
    | some s ↦ ok u
    | none ↦ parsed (lib.parse settings.site) >>= λ site. parsed (lib.join site path)
  ]

  -- `none` where the response has no location.
  unfoldable pub token_request_redirect_uri : Uri → Option Bytes → Outcome (Option Uri)
  unfolding parsed
  token_request_redirect_uri current none = ok none
  token_request_redirect_uri current (some []) = ok none
  token_request_redirect_uri current (some (c ∷ location)) =
      parsed (lib.join current (c ∷ location)) >>= λ u. ok (some u)

  unfoldable pub token_request_redirect_path : Uri → Uri → Bytes
  unfolding token_request_cross_origin
  token_request_redirect_path current redirected =
      if token_request_cross_origin current redirected
      then lib.to_s redirected
      else lib.request_uri redirected

  unfoldable pub follow : ℕ → RequestOptions → Uri → Uri → Next
  follow code o current redirected =
      decide (token_request_max_redirects settings o)
        (token_request_cross_origin current redirected
          && not (token_request_cross_origin_redirects settings o))
        code o (token_request_redirect_path current redirected)

  follow_location : ℕ → RequestOptions → Uri → Outcome (Option Uri) → Next
  follow_location code o current (raise e) = failed e
  follow_location code o current (ok none) = failed (http_error code)
  follow_location code o current (ok (some redirected)) = follow code o current redirected

  after_current : RequestOptions → Response → Outcome Uri → Next
  after_current o rsp (raise e) = failed e
  after_current o rsp (ok current) =
      follow_location rsp.code o current (token_request_redirect_uri current rsp.location)

  -- The branch of the codes 300 to 399.
  unfoldable pub after_redirect : Bytes → RequestOptions → Response → Next
  unfolding after_current follow_location
  after_redirect path o rsp = after_current o rsp (token_request_uri path)

  -- `case response.code.to_i`
  unfoldable pub after_response : Bytes → RequestOptions → Response → Next
  after_response path o rsp =
      if leb 200 rsp.code && leb rsp.code 299
      then done rsp.body
      else if leb 300 rsp.code && leb rsp.code 399
      then after_redirect path o rsp
      else if leb 400 rsp.code && leb rsp.code 499
      then failed (unauthorized rsp.code)
      else failed (http_error rsp.code)

  -- What follows a request.
  unfoldable pub after_request : Bytes → RequestOptions → Outcome Response → Next
  after_request path o (raise e) = failed e
  after_request path o (ok rsp) = after_response path o rsp

  module _ {W : Type 0}
      (send : W → Connection → Bytes → RequestOptions → W × Outcome Response) where
    -- The end, or the recursive call.
    unfoldable pub resume :
        (Trace W → Bytes → RequestOptions → Option (Trace W × Outcome Bytes))
        → Trace W
        → Next
        → Option (Trace W × Outcome Bytes)
    resume again t (done body) = some (t, ok body)
    resume again t (failed e) = some (t, raise e)
    resume again t (redirect path o) = again t path o

    -- The recursion of `token_request`, on fuel. The body of the response is what the block, or the
    -- parser of the form, is given.
    unfoldable pub token_request :
        ℕ → Trace W → Bytes → RequestOptions → Option (Trace W × Outcome Bytes)
    unfolding resume
    token_request zero t path o = none
    token_request (suc fuel) t path o =
        let (t', rsp) = request lib settings send t path (token_request_options o) in
        resume (token_request fuel) t' (after_request path o rsp)
