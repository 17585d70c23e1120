-- ===== src/Consumer/Tokens/Written.antt =====
-- A token that a server writes into its answer, and the client's reading of it.
use oauth.Prelude.{
  ℕ, suc, ◌≡◌, refl, sym, ap, ◌∙◌, [], ◌∷◌, ◌++◌, All, ◌&&◌, true, Option, none, some, Bytes, codes,
  bytes_eq, leb, map,
}
use oauth.Params.{Items, Params, NodupKeys, lookup, merge}
use oauth.Params.Appended.{merge-fresh}
use oauth.Params.Mapped.{NodupKeys-map}
use oauth.Outcome.{Outcome, ok}
use oauth.Helper.Normalize.{pair_text}
use oauth.Helper.Escape.{escape}
use oauth.Helper.Normalize.RoundTrip.{BytePairs}
use oauth.Client.Sent.{single_item}
use oauth.Client.NetHttp.{form_of, pair_of}
use oauth.Client.NetHttp.Forms.{form_of-append}
use oauth.Client.NetHttp.Queried.{ParsesForms}
use oauth.Consumer.{UriLib, Settings, Connection, RequestOptions, Response, Trace, request}
use oauth.Consumer.TokenRequest.{
  token_request_options, token_request, after_request, after_response, resume,
}
use oauth.Consumer.Tokens.{
  strip, first_text, stripped, token_fields, ConsumerToken, option, from_hash, to_query,
  callback_or_oob, get_token, request_token_address, access_token_address, get_request_token,
  get_access_token, token_of,
}

-- The fields of an answer: a token, its secret and what else is told.
abbrev pub told : Bytes → Bytes → Params Bytes → Params Bytes
told token secret more = (codes "oauth_token", token) ∷ (codes "oauth_token_secret", secret) ∷ more

-- The answer: `to_query` of the token, and the rest behind it.
abbrev pub answer_body : Bytes → Bytes → Params Bytes → Bytes
answer_body token secret [] = to_query token secret
answer_body token secret (p ∷ more) = to_query token secret ++ b'&' ∷ form_of (p ∷ more)

to_query-form : (token secret : Bytes) → to_query token secret ≡ form_of (told token secret [])
unfolding to_query form_of pair_of pair_text escape
to_query-form token secret = refl

answer_body-form :
    (token secret : Bytes) (more : Params Bytes)
    → answer_body token secret more ≡ form_of (told token secret more)
answer_body-form token secret [] = to_query-form token secret
answer_body-form token secret (p ∷ more) =
    ap (λ text. text ++ b'&' ∷ form_of (p ∷ more)) (to_query-form token secret)
    ∙ sym (form_of-append _ p ((codes "oauth_token_secret", secret) ∷ []) more)

abbrev pub given : Bytes × Bytes → Bytes × Option Bytes
given (k, v) = (k, some v)

stripped-single :
    (ps : Params Bytes)
    → All (λ p. strip p.0 ≡ p.0) ps
    → map stripped (map single_item ps) ≡ map given ps
unfolding stripped first_text single_item
stripped-single [] h = refl
stripped-single ((k, v) ∷ ps) h =
    ap (λ key. (key, some v) ∷ map stripped (map single_item ps)) h.0
    ∙ ap ((k, some v) ∷◌) (stripped-single ps h.1)

given-key : (p : Bytes × Bytes) → (given p).0 ≡ p.0
given-key (k, v) = refl

token_fields-single :
    (ps : Params Bytes)
    → NodupKeys ps
    → All (λ p. strip p.0 ≡ p.0) ps
    → token_fields (map single_item ps) ≡ map given ps
unfolding token_fields
token_fields-single ps nodup plain =
    ap (merge []) (stripped-single ps plain)
    ∙ merge-fresh [] (map given ps) (NodupKeys-map given given-key ps nodup)

-- The token that the client makes of the answer.
abbrev pub client_token : Bytes → Bytes → Params Bytes → ConsumerToken
client_token token secret more = record {
  token = some token;
  secret = some secret;
  params = map given (told token secret more);
}

from_hash-told :
    (token secret : Bytes) (more : Params Bytes)
    → from_hash (map given (told token secret more)) ≡ client_token token secret more
unfolding from_hash option lookup bytes_eq
from_hash-told token secret more = refl

module _ {W : Type 0} (lib : UriLib) (settings : Settings) (options : Params (Option Bytes))
    (cgi_parse : Bytes → Params Items)
    (send : Option ConsumerToken → W → Connection → Bytes → RequestOptions → W × Outcome Response)
    (parses : ParsesForms cgi_parse (map single_item)) (token secret : Bytes) (more : Params Bytes)
    (nodup : NodupKeys (told token secret more)) (bytes : BytePairs (told token secret more))
    (plain : All (λ p. strip p.0 ≡ p.0) more) where
  from_hash-answer :
      from_hash (token_fields (cgi_parse (answer_body token secret more)))
      ≡ client_token token secret more
  unfolding strip
  from_hash-answer =
      ap (λ text. from_hash (token_fields (cgi_parse text))) (answer_body-form token secret more)
      ∙ ap (λ ps. from_hash (token_fields ps)) (parses (told token secret more) nodup bytes)
      ∙ ap from_hash (token_fields-single (told token secret more) nodup (refl, (refl, plain)))
      ∙ from_hash-told token secret more

  -- A request that is answered with success ends a token request.
  token_request-answered :
      (signer : Option ConsumerToken) (fuel : ℕ) (t t' : Trace W) (path : Bytes)
      (o : RequestOptions) (rsp : Response)
      → request lib settings (send signer) t path (token_request_options o) ≡ (t', ok rsp)
      → (leb 200 rsp.code && leb rsp.code 299) ≡ true
      → token_request lib settings (send signer) (suc fuel) t path o ≡ some (t', ok rsp.body)
  unfolding token_request after_request after_response resume
  token_request-answered signer fuel t t' path o rsp answered success =
      rw answered (rw success refl)

  get_token-answered :
      (signer : Option ConsumerToken) (fuel : ℕ) (t t' : Trace W) (path : Bytes)
      (o : RequestOptions) (rsp : Response)
      → request lib settings (send signer) t path (token_request_options o) ≡ (t', ok rsp)
      → (leb 200 rsp.code && leb rsp.code 299) ≡ true
      → rsp.body ≡ answer_body token secret more
      → get_token lib settings options cgi_parse send (suc fuel) signer t (ok (some path)) o
        ≡ some (t', ok (client_token token secret more))
  unfolding get_token token_of
  get_token-answered signer fuel t t' path o rsp answered success is_body =
      rw (get_token, token_request-answered signer fuel t t' path o rsp answered success)
        (ap (λ tok. some (t', ok tok))
          (ap (λ text. from_hash (token_fields (cgi_parse text))) is_body ∙ from_hash-answer))

-- What a server tells with a token: different keys without white space around them, and bytes.
abbrev pub IsTold : Bytes → Bytes → Params Bytes → Type 0
IsTold token secret more =
    NodupKeys (told token secret more)
    × BytePairs (told token secret more)
    × All (λ p. strip p.0 ≡ p.0) more

module _ {W : Type 0} (lib : UriLib) (settings : Settings) (options : Params (Option Bytes))
    (cgi_parse : Bytes → Params Items)
    (send : Option ConsumerToken → W → Connection → Bytes → RequestOptions → W × Outcome Response)
    (parses : ParsesForms cgi_parse (map single_item)) where
  -- The request of a token, signed by another, is answered with success by a token.
  abbrev pub Answered :
      Option ConsumerToken
      → Trace W
      → Bytes
      → RequestOptions
      → Trace W
      → Bytes × Bytes × Params Bytes
      → Type 0
  Answered signer t path o t' (token, secret, more) =
      (rsp : Response) × (request lib settings (send signer) t path (token_request_options o)
        ≡ (t', ok rsp))
      × ((leb 200 rsp.code && leb rsp.code 299) ≡ true)
      × (rsp.body ≡ answer_body token secret more)

  -- Where the server answers the request of a request token by `to_query` of a token, with or without
  -- more fields behind it, and so the request of an access token that is signed with this one, the
  -- client gets a request token and an access token with the tokens, the secrets and the fields that
  -- the server has written: if they are bytes under different keys without white space around them,
  -- and if `CGI.parse` reads such a form. The first request has the callback "oob" by default.
  pub get_tokens-written :
      (fuel fuel' : ℕ) (t t' t'' : Trace W) (path path' : Bytes) (o o' : RequestOptions)
      (token secret : Bytes) (more : Params Bytes) (token' secret' : Bytes) (more' : Params Bytes)
      → request_token_address settings.site options ≡ ok (some path)
      → access_token_address settings.site options ≡ ok (some path')
      → IsTold token secret more
      → IsTold token' secret' more'
      → Answered none t path (callback_or_oob o) t' (token, secret, more)
      → Answered (some (client_token token secret more)) t' path' o' t'' (token', secret', more')
      → (get_request_token lib settings options cgi_parse send (suc fuel) t o
          ≡ some (t', ok (client_token token secret more)))
        × (get_access_token lib settings options cgi_parse send
              (suc fuel')
              (client_token token secret more)
              t'
              o'
            ≡ some (t'', ok (client_token token' secret' more')))
  unfolding get_request_token get_access_token
  get_tokens-written fuel fuel' t t' t'' path path' o o' token secret more token' secret' more'
        is_path is_path' (nodup, bytes, plain) (nodup', bytes', plain')
        (rsp, answered, success, body) (rsp', answered', success', body') =
      (
        rw is_path (
            get_token-answered lib settings options cgi_parse send parses token secret more nodup
              bytes plain none fuel t t' path (callback_or_oob o) rsp answered success body),
        rw is_path' (
            get_token-answered lib settings options cgi_parse send parses token' secret' more'
              nodup' bytes' plain' (some (client_token token secret more)) fuel' t' t'' path' o'
              rsp' answered' success' body'),
      )
