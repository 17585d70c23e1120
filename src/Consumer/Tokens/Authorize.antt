-- ===== src/Consumer/Tokens/Authorize.antt =====
-- `authorize_url`, `authenticate_url` and `build_url` of lib/oauth/tokens/request_token.rb. The
-- parameters of a call have symbols for keys, so that they override none of the address's own. Of
-- Ruby's libraries come `URI.parse`, the text of a URI, and the reading and writing of forms.
use mathlib.Core.List.{cons-ne-nil}
use oauth.Prelude.{
  ◌≡◌, ◌≢◌, refl, ap, ◌∙◌, [], ◌∷◌, ◌++◌, All, Option, none, some, Bytes, codes, bytes_eq_refl,
}
use oauth.Params.{Params, lookup, store, merge}
use oauth.Params.Appended.{lookup-append_fresh}
use oauth.Params.Laws.{lookup-store}
use oauth.Params.Stored.{store-ne-nil}
use oauth.Uri.{Uri}
use oauth.Outcome.{Outcome, ok, ◌>>=◌}
use oauth.Consumer.{parsed}
use oauth.Consumer.Tokens.{ConsumerToken, authorize_url, authenticate_url}

abbrev pub token_key : Bytes
token_key = codes "oauth_token"

append-ne-nil : (ps qs : Params Bytes) → qs ≢ [] → ps ++ qs ≢ []
append-ne-nil [] qs ne = ne
append-ne-nil (p ∷ ps) qs ne = cons-ne-nil p (ps ++ qs)

-- `params.merge(oauth_token: token)`
unfoldable pub with_token : Bytes → Params Bytes → Params Bytes
with_token token params = store token_key token params

module _ (parse_uri : Bytes → Option Uri) (to_s : Uri → Bytes)
    (decode_www_form : Bytes → Params Bytes) (encode_www_form : Params Bytes → Bytes) where
  -- `URI.decode_www_form(uri.query).to_h if uri.query`
  unfoldable pub own_queries : Option Bytes → Params Bytes
  own_queries none = []
  own_queries (some query) = merge [] (decode_www_form query)

  -- `uri.query = URI.encode_www_form(queries) unless queries.empty?`
  unfoldable pub with_queries : Uri → Params Bytes → Uri
  with_queries u [] = u
  with_queries u (q ∷ queries) = record u { query = some (encode_www_form (q ∷ queries)) }

  unfoldable pub build_url : Bytes → Params Bytes → Outcome Bytes
  unfolding with_queries own_queries parsed
  build_url base_url params = parsed (parse_uri base_url) >>= λ u.
      ok (to_s (with_queries u (own_queries u.query ++ params)))

  -- The address of a method of the consumer, for a token that is not nil.
  unfoldable pub url_of_token : Outcome Bytes → Params Bytes → Option Bytes → Outcome (Option Bytes)
  unfolding build_url with_token
  url_of_token base_url params none = ok none
  url_of_token base_url params (some token) =
      base_url >>= λ base. build_url base (with_token token params) >>= λ url. ok (some url)

  module _ (site : Bytes) (options : Params (Option Bytes)) (t : ConsumerToken) where
    -- `authorize_url` of a request token
    unfoldable pub token_authorize_url : Params Bytes → Outcome (Option Bytes)
    unfolding url_of_token
    token_authorize_url params = url_of_token (authorize_url site options) params t.token

    -- `authenticate_url` of a request token
    unfoldable pub token_authenticate_url : Params Bytes → Outcome (Option Bytes)
    unfolding url_of_token
    token_authenticate_url params = url_of_token (authenticate_url site options) params t.token

  with_queries-filled :
      (u : Uri) (queries : Params Bytes)
      → queries ≢ []
      → with_queries u queries ≡ record u { query = some (encode_www_form queries) }
  unfolding with_queries
  with_queries-filled u [] ne = absurd (ne refl)
  with_queries-filled u (q ∷ queries) ne = refl

  -- The address to which the user is sent has the token among the parameters of its query, where the
  -- address of the options has no `oauth_token` of its own, and where what is written is read back.
  pub build_url-token :
      (base_url token : Bytes) (params : Params Bytes) (u : Uri)
      → parse_uri base_url ≡ some u
      → All (λ p. p.0 ≢ token_key) (own_queries u.query)
      → ((v : Uri) → parse_uri (to_s v) ≡ some v)
      → ((ps : Params Bytes) → decode_www_form (encode_www_form ps) ≡ ps)
      → (url : Bytes) × (v : Uri) × (query : Bytes) × (url_of_token
            (ok base_url)
            params
            (some token)
          ≡ ok (some url))
        × (parse_uri url ≡ some v)
        × (v.query ≡ some query)
        × (lookup token_key (decode_www_form query) ≡ some token)
  unfolding url_of_token build_url parsed with_token
  build_url-token base_url token params u is_u fresh reads decodes =
      let queries = own_queries u.query ++ store token_key token params in
      let filled : queries ≢ [] =
        append-ne-nil (own_queries u.query) _ (store-ne-nil token_key token params) in
      let v = record u { query = some (encode_www_form queries) } in
      (
        to_s v,
        v,
        encode_www_form queries,
        rw is_u (ap (λ w. ok (some (to_s w))) (with_queries-filled u queries filled)),
        reads v,
        refl,
        ap (lookup token_key) (decodes queries)
            ∙ lookup-append_fresh token_key (own_queries u.query) _ fresh
            ∙ lookup-store token_key token_key token params
            ∙ rw (bytes_eq_refl token_key) refl,
      )
