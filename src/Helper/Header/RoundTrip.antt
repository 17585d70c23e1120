-- ===== src/Helper/Header/RoundTrip.antt =====
-- Reading back an Authorization header.
use mathlib.Core.List.{append_assoc}
use oauth.Prelude.{
  ◌≡◌, ◌≢◌, refl, sym, ◌∙◌, ap, List, [], ◌∷◌, ◌++◌, false, Bytes, codes, map, arith, append-nil,
  none,
}
use oauth.Prelude.Split.{split_by, join}
use oauth.Params.{Params, NodupKeys}
use oauth.Params.Laws.{store-fresh, NodupKeys-fresh}
use oauth.Outcome.{ok}
use oauth.Helper.Header.{
  is_separator, field_text, drop_trailing, is_odd, hash_of, parse_parts, parse_header, header_field,
  header_text, realm_text,
}
use oauth.Helper.Header.Parts.{
  KeyLines, KeyBytes, KeyLines-KeyBytes, quoted, key-NoSep, tail_parts, split-fields,
  drop_trailing-parts, is_odd-tail_parts,
}
use oauth.Helper.Header.Fields.{field_text-key, field_text-space, field_text-quoted}

-- The keys and values in turn.
flat : Params Bytes → List Bytes
flat [] = []
flat ((k, v) ∷ ps) = k ∷ v ∷ flat ps

map-tail_parts : (ps : Params Bytes) → KeyLines ps → map field_text (tail_parts ps) ≡ flat ps
unfolding tail_parts flat
map-tail_parts [] h = refl
map-tail_parts ((k, v) ∷ ps) h =
    rw (field_text-space k h.0.0, field_text-quoted v h.0.1, map-tail_parts ps h.1)

map-parts :
    (k v : Bytes) (ps : Params Bytes)
    → KeyLines ((k, v) ∷ ps)
    → map field_text (k ∷ quoted v ∷ tail_parts ps) ≡ flat ((k, v) ∷ ps)
unfolding flat
map-parts k v ps h = rw (field_text-key k h.0.0, field_text-quoted v h.0.1, map-tail_parts ps h.1)

hash_of-flat :
    (ps hash : Params Bytes) → NodupKeys (hash ++ ps) → hash_of (flat ps) hash ≡ hash ++ ps
unfolding hash_of flat
hash_of-flat [] hash h = sym (append-nil hash)
hash_of-flat ((k, v) ∷ ps) hash h =
    let assoc : (hash ++ (k, v) ∷ []) ++ ps ≡ hash ++ (k, v) ∷ ps =
      append_assoc hash ((k, v) ∷ []) ps in
    rw (store-fresh k v hash (NodupKeys-fresh hash ps k v h))
      (hash_of-flat ps (hash ++ (k, v) ∷ []) (rw assoc h) ∙ assoc)

-- The prefix of the header is six bytes long.
parse_header-text :
    (text : Bytes)
    → parse_header (codes "OAuth " ++ text)
      ≡ parse_parts (drop_trailing (split_by is_separator text))
unfolding parse_header
parse_header-text text = ground arith

pub parse_parts-ok :
    (params : List Bytes)
    → is_odd params ≡ false
    → parse_parts params ≡ ok (hash_of (map field_text params) [])
unfolding parse_parts
parse_parts-ok params h = rw h

pub is_odd-parts : (k v : Bytes) (ps : Params Bytes) → is_odd (k ∷ v ∷ tail_parts ps) ≡ false
unfolding is_odd
is_odd-parts k v ps = rw (is_odd-tail_parts ps)

pub parts-header_text :
    (k v : Bytes) (ps : Params Bytes)
    → KeyBytes ((k, v) ∷ ps)
    → parse_header (header_text none ((k, v) ∷ ps)) ≡ parse_parts (k ∷ quoted v ∷ tail_parts ps)
unfolding header_text realm_text
parts-header_text k v ps h =
    parse_header-text (join (codes ", ") (header_field (k, v) ∷ map header_field ps))
    ∙ ap (λ parts. parse_parts (drop_trailing parts))
        (split-fields k v ps (key-NoSep k h.0.0) h.0.1 h.1)
    ∙ ap parse_parts (drop_trailing-parts k v ps)

-- The header that is written for parameters, without a realm, is read back as these parameters, in
-- their order: if there is one, the keys differ and are unreserved bytes, and no value holds a
-- line feed.
pub parse_header-header_text :
    (ps : Params Bytes)
    → ps ≢ []
    → NodupKeys ps
    → KeyLines ps
    → parse_header (header_text none ps) ≡ ok ps
parse_header-header_text [] ne _ _ = absurd (ne refl)
parse_header-header_text ((k, v) ∷ ps) ne once lines =
    parts-header_text k v ps (KeyLines-KeyBytes ((k, v) ∷ ps) lines)
    ∙ parse_parts-ok (k ∷ quoted v ∷ tail_parts ps) (is_odd-parts k (quoted v) ps)
    ∙ ap (λ parts. ok (hash_of parts [])) (map-parts k v ps lines)
    ∙ ap ok (hash_of-flat ((k, v) ∷ ps) [] once)
