-- ===== src/Consumer/TokenRequest/Total.antt =====
-- Redirects end: fuel for the redirects that are left is enough, and so many requests are sent.
use oauth.Prelude.{
  ℕ, zero, suc, ◌+◌, ◌-◌, ◌≤◌, ◌<◌, ◌≡◌, refl, Option, none, some, [], ◌∷◌, Bytes, arith, length,
  length-append,
}
use oauth.Outcome.{Outcome, ok, raise}
use oauth.Consumer.{
  UriLib, Settings, Connection, RequestOptions, Response, Trace, request, request_to, connect,
  send_over,
}
use oauth.Consumer.TokenRequest.{
  Next, done, failed, redirect, count_or_zero, token_request_max_redirects, token_request_options,
  after_request, resume, token_request,
}
use oauth.Consumer.TokenRequest.Inversion.{after_request-Redirected}

-- The redirects that the options leave.
abbrev pub left_of : Option ℕ → ℕ → ℕ
left_of none count = 0
left_of (some limit) count = limit - count

abbrev pub redirects_left : Settings → RequestOptions → ℕ
redirects_left settings o =
    left_of (token_request_max_redirects settings o) (count_or_zero o.redirect_count)

keep_max :
    (settings : Settings) (o : RequestOptions) (count : Option ℕ)
    → token_request_max_redirects settings (record o { redirect_count = count })
      ≡ token_request_max_redirects settings o
unfolding token_request_max_redirects
keep_max settings o count = refl

-- Each redirect uses up one.
redirects_left-follow :
    (settings : Settings) (o o' : RequestOptions) (limit : ℕ)
    → token_request_max_redirects settings o ≡ some limit
    → count_or_zero o.redirect_count + 1 ≤ limit
    → o' ≡ record o { redirect_count = some (count_or_zero o.redirect_count + 1) }
    → suc (redirects_left settings o') ≡ redirects_left settings o
unfolding count_or_zero
redirects_left-follow settings o o' limit has within counted =
    rw (counted, keep_max settings o _, has) (omega arith)

module _ {W : Type 0} (lib : UriLib) (settings : Settings)
    (send : W → Connection → Bytes → RequestOptions → W × Outcome Response) where
  redirects_left-Redirected :
      (path : Bytes) (o : RequestOptions) (answer : Outcome Response) (path' : Bytes)
      (o' : RequestOptions)
      → after_request lib settings path o answer ≡ redirect path' o'
      → suc (redirects_left settings o') ≡ redirects_left settings o
  redirects_left-Redirected path o answer path' o' h =
      let (location, (current, redirected, is_current, is_redirected, f)) =
        after_request-Redirected lib settings path o answer h in
      redirects_left-follow settings o o' f.limit f.has_limit f.within f.counted

  send_over-length :
      (t : Trace W) (o : RequestOptions) (cp : Connection × Bytes)
      → length (send_over lib settings send t o cp).0.sent ≤ suc (length t.sent)
  unfolding send_over
  send_over-length t o (c, p) = omega (arith, length-append t.sent ((c, p) ∷ []))

  request_to-length :
      (t : Trace W) (o : RequestOptions) (target : Outcome (Connection × Bytes))
      → length (request_to lib settings send t o target).0.sent ≤ suc (length t.sent)
  unfolding request_to
  request_to-length t o (raise e) = omega arith
  request_to-length t o (ok cp) = send_over-length t o cp

  request-length :
      (t : Trace W) (path : Bytes) (o : RequestOptions)
      → length (request lib settings send t path o).0.sent ≤ suc (length t.sent)
  unfolding request
  request-length t path o = request_to-length _ o (connect lib settings send t.http path).1

  -- Enough fuel gives a result, and bounds what has been sent.
  abbrev pub Ends : Option (Trace W × Outcome Bytes) → ℕ → Type 0
  Ends run bound = (r : Trace W × Outcome Bytes) × (run ≡ some r) × (length r.0.sent ≤ bound)

  Ends-mono : (run : Option (Trace W × Outcome Bytes)) (a b : ℕ) → a ≤ b → Ends run a → Ends run b
  Ends-mono run a b h (r, is_r, small) = (r, is_r, omega arith)

  resume-Ends :
      (again : Trace W → Bytes → RequestOptions → Option (Trace W × Outcome Bytes)) (t : Trace W)
      (next : Next) (bound : ℕ)
      → length t.sent ≤ bound
      → ((path : Bytes) (o : RequestOptions) → next ≡ redirect path o → Ends (again t path o) bound)
      → Ends (resume lib settings send again t next) bound
  unfolding resume
  resume-Ends again t (done body) bound h step = ((t, ok body), refl, h)
  resume-Ends again t (failed e) bound h step = ((t, raise e), refl, h)
  resume-Ends again t (redirect path o) bound h step = step path o refl

  -- A token request ends, and sends at most one request more than there are redirects left; so much
  -- fuel is enough, whatever the server answers.
  pub token_request-Ends :
      (fuel : ℕ) (t : Trace W) (path : Bytes) (o : RequestOptions)
      → redirects_left settings o < fuel
      → Ends
          (token_request lib settings send fuel t path o)
          (length t.sent + suc (redirects_left settings o))
  unfolding token_request
  token_request-Ends zero t path o h = absurd (omega arith)
  token_request-Ends (suc fuel) t path o h =
      let answer = request lib settings send t path (token_request_options o) in
      let grows = request-length t path (token_request_options o) in
      resume-Ends (token_request lib settings send fuel) answer.0 _ _ (omega arith) λ path' o' e.
        let fewer = redirects_left-Redirected path o answer.1 path' o' e in
        Ends-mono _ _ _ (omega arith) (token_request-Ends fuel answer.0 path' o' (omega arith))
