-- ===== src/Client/Received.antt =====
-- The header of the client as the server reads it.
use mathlib.Core.List.{Permᴰ}
use mathlib.Core.List.Permᴰ
use mathlib.Core.Path.{subst}
use oauth.Prelude.{
  ◌≡◌, ◌≢◌, refl, sym, ap, ◌∙◌, [], ◌∷◌, ◌++◌, All, All-append, true, false, Option, none, some,
  Bytes, codes, bytes_eq, bytes_eq_refl, map,
}
use oauth.Params.{str, Params, NodupKeys, lookup, merge}
use oauth.Params.Perms.{sort-Permᴰ, NodupKeys-Permᴰ, All-Permᴰ, lookup-Permᴰ}
use oauth.Params.Appended.{
  merge-fresh, lookup-append_fresh, select-all, All-apart, NodupKeys-append,
}
use oauth.Params.Mapped.{NodupKeys-map, All-map_keys, lookup-map}
use oauth.Outcome.{Outcome, ok}
use oauth.Helper.Normalize.{key_le, sort_params}
use oauth.Helper.Escape.{is_reserved}
use oauth.Helper.Header.{header_text, parse_header}
use oauth.Helper.Header.Parts.{IsKey, IsLine, KeyLines}
use oauth.Helper.Header.RoundTrip.{parse_header-header_text}
use oauth.RequestProxy.{signature_key}
use oauth.RequestProxy.Rack.{
  RackRequest, is_oauth_key, header_from, oauth_fields, headers_from, header_params, header_names,
  request_params, as_string, as_strings, rack_parameters,
}
use oauth.Client.{shown, shown_pair, shown_values}
use oauth.Client.Keys.{is_plain, is_plain-IsKey}

pub shown_pair-key : (p : Bytes × Option Bytes) → (shown_pair p).0 ≡ p.0
unfolding shown_pair
shown_pair-key p = refl

pub NodupKeys-last :
    {V : Type 0} (ps : Params V) (k : Bytes) (v : V)
    → NodupKeys ps
    → All (λ p. p.0 ≢ k) ps
    → NodupKeys (ps ++ (k, v) ∷ [])
NodupKeys-last [] k v h fresh = (tt, tt)
NodupKeys-last (p ∷ ps) k v h fresh = (
  All-append _ ps ((k, v) ∷ []) h.0 ((λ e. fresh.0 (sym e)), tt),
  NodupKeys-last ps k v h.1 fresh.1,
)

-- The parameters of a header: keys of OAuth, without the signature, and values on one line.
abbrev pub Sendable : Params (Option Bytes) → Type 0
Sendable ps =
    NodupKeys ps
    × All (λ p. p.0 ≢ signature_key) ps
    × All (λ p. is_oauth_key p.0 ≡ true) ps
    × All (λ p. is_plain p.0 ≡ true) ps
    × All (λ p. IsLine (shown p.1)) ps

-- What the header needs of a parameter.
abbrev KeyLine : Bytes × Option Bytes → Type 0
KeyLine p = IsKey p.0 × IsLine (shown p.1)

KeyLine-all :
    (ps : Params (Option Bytes))
    → All (λ p. is_plain p.0 ≡ true) ps
    → All (λ p. IsLine (shown p.1)) ps
    → All KeyLine ps
KeyLine-all [] plain lines = tt
KeyLine-all (p ∷ ps) plain lines =
    ((is_plain-IsKey p.0 plain.0, lines.0), KeyLine-all ps plain.1 lines.1)

KeyLines-shown_pair : (ps : Params (Option Bytes)) → All KeyLine ps → KeyLines (map shown_pair ps)
unfolding shown_pair
KeyLines-shown_pair [] h = tt
KeyLines-shown_pair (p ∷ ps) h = (h.0, KeyLines-shown_pair ps h.1)

module _ (ps : Params (Option Bytes)) (text : Bytes) (sendable : Sendable ps)
    (line : IsLine text) where
  -- The parameters with the signature, in the order of their keys, and as the header shows them.
  abbrev pub with_text : Params (Option Bytes)
  with_text = ps ++ (signature_key, some text) ∷ []

  abbrev pub sent : Params Bytes
  sent = shown_values (sort_params with_text)

  with_text-NodupKeys : NodupKeys with_text
  with_text-NodupKeys = NodupKeys-last ps signature_key (some text) sendable.0 sendable.1

  sorted-Permᴰ : Permᴰ with_text (sort_params with_text)
  unfolding sort_params
  sorted-Permᴰ = Permᴰ.symm (sort-Permᴰ key_le with_text)

  sorted-NodupKeys : NodupKeys (sort_params with_text)
  sorted-NodupKeys = NodupKeys-Permᴰ sorted-Permᴰ with_text-NodupKeys

  pub sent-NodupKeys : NodupKeys sent
  unfolding shown_values
  sent-NodupKeys = NodupKeys-map shown_pair shown_pair-key (sort_params with_text) sorted-NodupKeys

  pub sent-oauth : All (λ p. is_oauth_key p.0 ≡ true) sent
  unfolding shown_values is_oauth_key
  sent-oauth =
      All-map_keys shown_pair shown_pair-key (λ k. is_oauth_key k ≡ true) (sort_params with_text)
        (All-Permᴰ (λ p. is_oauth_key p.0 ≡ true) sorted-Permᴰ
          (All-append _ ps ((signature_key, some text) ∷ []) sendable.2 (refl, tt)))

  sent-lines : KeyLines sent
  unfolding shown_values is_plain is_reserved shown
  sent-lines = KeyLines-shown_pair (sort_params with_text) (
      All-Permᴰ KeyLine sorted-Permᴰ (
        All-append KeyLine ps ((signature_key, some text) ∷ [])
          (KeyLine-all ps sendable.3 sendable.4) ((is_plain-IsKey signature_key refl, line), tt)))

  pub lookup-sent :
      (key : Bytes) (v : Option Bytes)
      → lookup key with_text ≡ some v
      → lookup key sent ≡ some (shown v)
  unfolding shown_values shown_pair
  lookup-sent key v found =
      lookup-map shown_pair shown_pair-key key (sort_params with_text) v
        (sym (lookup-Permᴰ key sorted-Permᴰ with_text-NodupKeys) ∙ found)

  pub lookup-sent_signature : lookup signature_key sent ≡ some text
  unfolding lookup shown
  lookup-sent_signature = lookup-sent signature_key (some text) (
      lookup-append_fresh signature_key ps ((signature_key, some text) ∷ []) sendable.1
      ∙ (rw (bytes_eq_refl signature_key) refl))

  sent-ne : sent ≢ []
  unfolding lookup
  sent-ne e =
      let found : lookup signature_key [] ≡ some text =
        sym (ap (lookup signature_key) e) ∙ lookup-sent_signature in
      cc

  pub parse_header-sent : parse_header (header_text none sent) ≡ ok sent
  parse_header-sent = parse_header-header_text sent sent-ne sent-NodupKeys sent-lines

-- The header stands in the environment, as Rack puts it there.
abbrev pub HasHeader : Bytes → Params Bytes → Type 0
HasHeader text env =
    (lookup (codes "X-HTTP_AUTHORIZATION") env ≡ none)
    × (lookup (codes "Authorization") env ≡ none)
    × (lookup (codes "HTTP_AUTHORIZATION") env ≡ some text)

pub as_string-key : (p : Bytes × Bytes) → (as_string p).0 ≡ p.0
unfolding as_string
as_string-key p = refl

as_strings-append : (ps qs : Params Bytes) → as_strings ps ++ as_strings qs ≡ as_strings (ps ++ qs)
unfolding as_strings
as_strings-append [] qs = refl
as_strings-append (p ∷ ps) qs = ap (as_string p ∷◌) (as_strings-append ps qs)

strings-NodupKeys : (ps : Params Bytes) → NodupKeys ps → NodupKeys (as_strings ps)
unfolding as_strings
strings-NodupKeys ps h = NodupKeys-map as_string as_string-key ps h

header_from-oauth :
    (ps : Params Bytes) (rest : Outcome (Params Bytes))
    → parse_header (header_text none ps) ≡ ok ps
    → All (λ p. is_oauth_key p.0 ≡ true) ps
    → header_from (some (header_text none ps)) rest ≡ ok ps
unfolding header_from oauth_fields header_text bytes_eq
header_from-oauth ps rest parsed oauth =
    ap oauth_fields parsed ∙ ap ok (select-all (λ k v. is_oauth_key k) ps oauth)

pub headers_from-oauth :
    (ps : Params Bytes) (env : Params Bytes)
    → HasHeader (header_text none ps) env
    → parse_header (header_text none ps) ≡ ok ps
    → All (λ p. is_oauth_key p.0 ≡ true) ps
    → headers_from header_names env ≡ ok ps
unfolding headers_from
headers_from-oauth ps env (x, plain, given) parsed oauth =
    let last = codes "HTTP_AUTHORIZATION" ∷ [] in
    let more = codes "Authorization" ∷ last in
    ap (λ o. header_from o (headers_from more env)) x
    ∙ ap (λ o. header_from o (headers_from last env)) plain
    ∙ ap (λ o. header_from o (ok [])) given
    ∙ header_from-oauth ps (ok []) parsed oauth

module _ (qs : Params Bytes) (ps : Params Bytes) (qs_nodup : NodupKeys qs)
    (qs_plain : All (λ p. is_oauth_key p.0 ≡ false) qs) (ps_nodup : NodupKeys ps)
    (ps_oauth : All (λ p. is_oauth_key p.0 ≡ true) ps) where
  pub received-NodupKeys : NodupKeys (qs ++ ps)
  received-NodupKeys = NodupKeys-append is_oauth_key qs ps qs_nodup ps_nodup qs_plain ps_oauth

  pub rack_parameters-received :
      (rack : RackRequest)
      → merge (request_params rack) rack.query ≡ as_strings qs
      → header_params rack ≡ ok ps
      → rack_parameters rack ≡ ok (as_strings (qs ++ ps))
  unfolding rack_parameters
  rack_parameters-received rack merged parsed =
      let nodup : NodupKeys (as_strings qs ++ as_strings ps) =
        subst NodupKeys (sym (as_strings-append qs ps))
          (strings-NodupKeys (qs ++ ps) received-NodupKeys) in
      rw (parsed, merged)
        (ap ok (merge-fresh (as_strings qs) (as_strings ps) nodup ∙ as_strings-append qs ps))

  pub lookup-received :
      (key : Bytes) (text : Bytes)
      → is_oauth_key key ≡ true
      → lookup key ps ≡ some text
      → lookup key (as_strings (qs ++ ps)) ≡ some (str text)
  unfolding as_strings as_string
  lookup-received key text oauth found = lookup-map as_string as_string-key key (qs ++ ps) text (
      lookup-append_fresh key qs ps (All-apart is_oauth_key key false qs (λ e. cc) qs_plain)
      ∙ found)
