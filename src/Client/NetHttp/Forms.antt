-- ===== src/Client/NetHttp/Forms.antt =====
-- Queries that are forms: what is appended to them, and what stands in a path behind them.
use oauth.Prelude.{
  ◌≡◌, ◌≢◌, refl, sym, ap, ◌∙◌, List, [], ◌∷◌, ◌++◌, append_assoc, Option, none, some, Bytes, codes,
  map,
}
use mathlib.Core.List.{cons-ne-nil}
use oauth.Prelude.Split.{join}
use oauth.Params.{Params}
use oauth.Helper.Escape.{escape}
use oauth.Helper.Normalize.{pair_text}
use oauth.Helper.Normalize.RoundTrip.{texts, BytePairs, read_form, read_form-sorted}
use oauth.RequestProxy.{signature_key}
use oauth.Client.NetHttp.{pair_of, form_of, amended_query, path_with_signature}

join-append :
    (sep x y : Bytes) (xs ys : List Bytes)
    → join sep (x ∷ xs ++ y ∷ ys) ≡ join sep (x ∷ xs) ++ (sep ++ join sep (y ∷ ys))
unfolding join
join-append sep x y [] ys = refl
join-append sep x y (x' ∷ xs) ys =
    ap (λ rest. x ++ (sep ++ rest)) (join-append sep x' y xs ys)
    ∙ ap (x ++◌) (sym (append_assoc sep (join sep (x' ∷ xs)) (sep ++ join sep (y ∷ ys))))
    ∙ sym (append_assoc x (sep ++ join sep (x' ∷ xs)) (sep ++ join sep (y ∷ ys)))

map_append : (ps qs : Params Bytes) → map pair_of (ps ++ qs) ≡ map pair_of ps ++ map pair_of qs
map_append [] qs = refl
map_append (p ∷ ps) qs = ap (pair_of p ∷◌) (map_append ps qs)

pub form_of-append :
    (p q : Bytes × Bytes) (ps qs : Params Bytes)
    → form_of (p ∷ ps ++ q ∷ qs) ≡ form_of (p ∷ ps) ++ b'&' ∷ form_of (q ∷ qs)
unfolding form_of
form_of-append p q ps qs =
    ap (join (b'&' ∷ [])) (map_append (p ∷ ps) (q ∷ qs))
    ∙ join-append (b'&' ∷ []) (pair_of p) (pair_of q) (map pair_of ps) (map pair_of qs)

-- The query of a path that has parameters of its own.
unfoldable pub own_query : Params Bytes → Option Bytes
own_query [] = none
own_query (q ∷ qs) = some (form_of (q ∷ qs))

amended_query-filled :
    (query text : Bytes) → query ≢ [] → amended_query (some query) text ≡ query ++ b'&' ∷ text
unfolding amended_query
amended_query-filled [] text ne = absurd (ne refl)
amended_query-filled (c ∷ query) text ne = refl

append-ne-nil : (xs ys : Bytes) → ys ≢ [] → xs ++ ys ≢ []
append-ne-nil [] ys ne = ne
append-ne-nil (x ∷ xs) ys ne = cons-ne-nil x (xs ++ ys)

form-filled : (q : Bytes × Bytes) (qs : Params Bytes) → form_of (q ∷ qs) ≢ []
unfolding form_of join pair_of pair_text
form-filled (k, v) [] = append-ne-nil (escape k) (b'=' ∷ escape v) (cons-ne-nil _ _)
form-filled p (q ∷ qs) = append-ne-nil (pair_of p) _ (cons-ne-nil _ _)

-- The query with the OAuth parameters is the form of both.
pub amended_query-own :
    (qs : Params Bytes) (p : Bytes × Bytes) (ps : Params Bytes)
    → amended_query (own_query qs) (form_of (p ∷ ps)) ≡ form_of (qs ++ p ∷ ps)
unfolding own_query amended_query
amended_query-own [] p ps = refl
amended_query-own (q ∷ qs) p ps =
    amended_query-filled (form_of (q ∷ qs)) (form_of (p ∷ ps)) (form-filled q qs)
    ∙ sym (form_of-append q p qs ps)

-- The path with the signature has the form of all of them behind it.
pub path_with_signature-form :
    (front text : Bytes) (p : Bytes × Bytes) (ps : Params Bytes)
    → path_with_signature (front ++ form_of (p ∷ ps)) text
      ≡ front ++ form_of (p ∷ ps ++ (signature_key, text) ∷ [])
unfolding path_with_signature form_of join pair_of pair_text escape
path_with_signature-form front text p ps =
    append_assoc front (form_of (p ∷ ps)) (codes "&oauth_signature=" ++ escape text)
    ∙ ap (front ++◌) (sym (form_of-append p (signature_key, text) ps []))

texts-form : (ps : Params Bytes) → texts ps ≡ map pair_of ps
unfolding texts pair_of
texts-form [] = refl
texts-form ((k, v) ∷ ps) = ap (pair_text k v ∷◌) (texts-form ps)

-- A form that is not empty is read as its parameters.
pub read_form-form_of :
    (ps : Params Bytes) → ps ≢ [] → BytePairs ps → read_form (form_of ps) ≡ some ps
unfolding form_of
read_form-form_of ps ne bytes =
    ap (λ parts. read_form (join (b'&' ∷ []) parts)) (sym (texts-form ps))
    ∙ read_form-sorted ps ne bytes
