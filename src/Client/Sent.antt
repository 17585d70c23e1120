-- ===== src/Client/Sent.antt =====
-- What the client signs, and what arrives: the same parameters, in another order and other wrappings.
use mathlib.Core.List.{append_assoc, Permᴰ}
use mathlib.Core.List.Permᴰ
use oauth.Prelude.{
  ◌≡◌, ◌≢◌, refl, sym, ap, ◌∙◌, List, [], ◌∷◌, ◌++◌, append-nil, All, Bool, false, not, Option,
  none, some, Bytes, map, if◌then◌else◌,
}
use oauth.Prelude.Order.{insertion_sort}
use oauth.Params.{Value, str, null, Items, item, no_items, Params, NodupKeys, select, includes}
use oauth.Params.Laws.{store-fresh, NodupKeys-fresh}
use oauth.Params.Perms.{sort-Permᴰ, map-Permᴰ, select-Permᴰ}
use oauth.Params.Appended.{lookup-fresh, NodupKeys-select}
use oauth.Params.Mapped.{NodupKeys-map}
use oauth.Helper.Normalize.{key_le, sort_params, entry_text, pair_text, sort_strings, normalize}
use oauth.Helper.Normalize.Order.{normalize-Perm}
use oauth.Helper.Normalize.Wrapped.{SameTexts, normalize-SameTexts, select-SameTexts}
use oauth.RequestProxy.{signature_key}
use oauth.RequestProxy.Signed.{includes_last}
use oauth.RequestProxy.NetHttp.{value_of, added, add_parameters, as_array, as_arrays}
use oauth.RequestProxy.Rack.{as_string, as_strings}
use oauth.Client.{shown, shown_pair, shown_values}

-- A parameter of the request as `CGI.parse` gives it, and one of the options.
unfoldable pub single_item : Bytes × Bytes → Bytes × Items
single_item (k, v) = (k, item (str v) no_items)

unfoldable pub item_of : Bytes × Option Bytes → Bytes × Items
unfolding value_of
item_of (k, v) = (k, item (value_of v) no_items)

added-fresh :
    (k : Bytes) (v : Option Bytes) (params : Params Items)
    → All (λ p. p.0 ≢ k) params
    → added k v none params ≡ params ++ (k, item (value_of v) no_items) ∷ []
unfolding added value_of
added-fresh k none params fresh = store-fresh k (item null no_items) params fresh
added-fresh k (some v) params fresh = store-fresh k (item (str v) no_items) params fresh

pub add_parameters-fresh :
    (params : Params Items) (ps : Params (Option Bytes))
    → NodupKeys (params ++ map item_of ps)
    → add_parameters params ps ≡ params ++ map item_of ps
unfolding add_parameters added item_of
add_parameters-fresh params [] h = sym (append-nil params)
add_parameters-fresh params ((k, v) ∷ ps) h =
    let items = item (value_of v) no_items in
    let fresh = NodupKeys-fresh params (map item_of ps) k items h in
    let assoc : (params ++ (k, items) ∷ []) ++ map item_of ps
        ≡ params ++ (k, items) ∷ map item_of ps =
      append_assoc params ((k, items) ∷ []) (map item_of ps) in
    ap (λ found. add_parameters (added k v found params) ps) (lookup-fresh k params fresh)
    ∙ ap (λ next. add_parameters next ps) (added-fresh k v params fresh)
    ∙ add_parameters-fresh (params ++ (k, items) ∷ []) ps (rw assoc h)
    ∙ assoc

arrays-SameTexts :
    (qs : Params Bytes) (ps : Params (Option Bytes))
    → SameTexts
        (as_arrays (map single_item qs ++ map item_of ps))
        (as_strings (qs ++ shown_values ps))
unfolding as_arrays as_array as_strings as_string shown_values shown_pair shown single_item item_of
    value_of entry_text pair_text sort_strings
arrays-SameTexts [] [] = tt
arrays-SameTexts [] ((k, none) ∷ ps) = (refl, refl, arrays-SameTexts [] ps)
arrays-SameTexts [] ((k, some v) ∷ ps) = (refl, refl, arrays-SameTexts [] ps)
arrays-SameTexts ((k, v) ∷ qs) ps = (refl, refl, arrays-SameTexts qs ps)

module _ (unsigned : List Bytes) where
  abbrev pub is_signed : Bytes → Bool
  is_signed k = not (includes (unsigned ++ signature_key ∷ []) k)

  signature-dropped :
      (qs : Params Bytes) (ps : Params (Option Bytes)) (text : Bytes)
      → select
          (λ k v. is_signed k)
          (as_strings (qs ++ shown_values (ps ++ (signature_key, some text) ∷ [])))
        ≡ select (λ k v. is_signed k) (as_strings (qs ++ shown_values ps))
  unfolding as_strings as_string shown_values shown_pair shown select
  signature-dropped [] [] text =
      let dropped : is_signed signature_key ≡ false =
        ap not (includes_last unsigned signature_key) in
      rw dropped refl
  signature-dropped [] (p ∷ ps) text =
      ap (λ rest. if is_signed p.0 then as_string (shown_pair p) ∷ rest else rest)
        (signature-dropped [] ps text)
  signature-dropped (q ∷ qs) ps text =
      ap (λ rest. if is_signed q.0 then as_string q ∷ rest else rest) (signature-dropped qs ps text)

  -- The parameters that arrive, in the order of their keys, are those that were signed.
  received-Permᴰ :
      (qs qs' : Params Bytes) (ps : Params (Option Bytes))
      → Permᴰ qs' qs
      → Permᴰ
          (as_strings (qs' ++ shown_values (sort_params ps)))
          (as_strings (qs ++ shown_values ps))
  unfolding as_strings shown_values sort_params
  received-Permᴰ qs qs' ps perm = map-Permᴰ as_string (
      Permᴰ.trans (Permᴰ.append_right (map shown_pair (insertion_sort key_le ps)) perm)
        (Permᴰ.append_left qs (map-Permᴰ shown_pair (sort-Permᴰ key_le ps))))

  as_string-key : (p : Bytes × Bytes) → (as_string p).0 ≡ p.0
  unfolding as_string
  as_string-key p = refl

  pub normalize-received :
      (qs qs' : Params Bytes) (ps : Params (Option Bytes)) (text : Bytes)
      → Permᴰ qs' qs
      → NodupKeys (qs' ++ shown_values (sort_params (ps ++ (signature_key, some text) ∷ [])))
      → normalize (
          select
            (λ k v. is_signed k)
            (as_strings
              (qs' ++ shown_values (sort_params (ps ++ (signature_key, some text) ∷ [])))))
        ≡ normalize (select (λ k v. is_signed k) (as_arrays (map single_item qs ++ map item_of ps)))
  unfolding as_strings
  normalize-received qs qs' ps text perm nodup =
      let keep : (V : Type 0) → Bytes → V → Bool = λ V k v. is_signed k in
      let all = ps ++ (signature_key, some text) ∷ [] in
      let received = as_strings (qs' ++ shown_values (sort_params all)) in
      let signed = as_strings (qs ++ shown_values ps) in
      normalize-Perm _ _ ∣ select-Permᴰ (keep Value) (received-Permᴰ qs qs' all perm) ∣₁ (
        NodupKeys-select (keep Value) received
          (NodupKeys-map as_string as_string-key (qs' ++ shown_values (sort_params all)) nodup))
      ∙ ap normalize (signature-dropped qs ps text)
      ∙ sym (
          normalize-SameTexts _ _ (
            select-SameTexts is_signed (as_arrays (map single_item qs ++ map item_of ps)) signed
              (arrays-SameTexts qs ps)))
