-- ===== src/Examples/Helpers.antt =====
-- Inputs for lib/oauth/helper.rb.
use mathlib.Core.Option
use mathlib.Core.List.{cons-ne-nil}
use mathlib.Core.List.Perm
use oauth.Prelude.{
  ◌≡◌, refl, [], ◌∷◌, ◌++◌, Bytes, codes, some, none, arith, bytes_eq, bytes_ne, Bool, true, not,
  ◌&&◌,
}
use oauth.Params.{Value, str, arr, obj, item, no_items, field, no_fields, Params, NodupKeys}
use oauth.Outcome.{ok, raise, problem}
use oauth.Helper.Escape.{escape, unescape, is_reserved}
use oauth.Helper.Escape.RoundTrip.{unescape-escape}
use oauth.Helper.Normalize.{
  normalize, sort_params, normalize_nested_query, sort_strings, pair_text, prefix_text,
  array_prefix, hash_prefix,
}
use oauth.Helper.Normalize.Order.{normalize-Perm}
use oauth.Helper.Normalize.RoundTrip.{read_form, as_values, read_form-normalize}
use oauth.Helper.Header.{
  parse_header, parse_parts, header_text, invalid_header, drop_trailing, is_odd, is_separator,
}
use oauth.Prelude.Split.{split_by}
use oauth.Helper.Header.Parts.{IsKey, KeyLines}
use oauth.Helper.Header.RoundTrip.{parse_header-header_text}
use oauth.Helper.Header.LineFeed.{parse_header-line_feed}

abbrev spaced : Bytes
spaced = codes "a b+c%"

escaped_text : escape spaced ≡ codes "a%20b%2Bc%25"
unfolding escape
escaped_text = refl

-- A plus sign stays, and a percent sign that no two digits follow.
plus_kept : unescape (codes "1+1%2g%41") ≡ codes "1+1%2gA"
unfolding unescape
plus_kept = refl

unescape-escape_example : unescape (escape spaced) ≡ spaced
unescape-escape_example = unescape-escape spaced (omega arith)

abbrev pair_list : Params Bytes
pair_list = (codes "b", codes "x y") ∷ (codes "a", codes "1&2") ∷ []

read_form-normalize_example :
    Option.bind (normalize (as_values pair_list)) read_form ≡ some (sort_params pair_list)
read_form-normalize_example = read_form-normalize pair_list (cons-ne-nil _ _) (omega arith)

abbrev nested : Params Value
nested =
    (codes "z", arr (item (str (codes "2")) (item (str (codes "1")) no_items)))
    ∷ (codes "h", obj (field (codes "k") (arr (item (str (codes "v")) no_items)) no_fields))
    ∷ []

normalized_nested : normalize nested ≡ some (codes "h%5Bk%5D%5B%5D=v&z=1&z=2")
unfolding normalize escape normalize_nested_query sort_strings pair_text prefix_text array_prefix
    hash_prefix
normalized_nested = refl

abbrev nested_swapped : Params Value
nested_swapped =
    (codes "h", obj (field (codes "k") (arr (item (str (codes "v")) no_items)) no_fields))
    ∷ (codes "z", arr (item (str (codes "2")) (item (str (codes "1")) no_items)))
    ∷ []

nested_once : NodupKeys nested
unfolding bytes_eq
nested_once = ((bytes_ne _ _ refl, tt), (tt, tt))

normalize-Perm_example : normalize nested ≡ normalize nested_swapped
normalize-Perm_example = normalize-Perm nested nested_swapped (Perm.swap _ _ _) nested_once

abbrev header_pairs : Params Bytes
header_pairs = (codes "oauth_token", codes "a,b\"c") ∷ (codes "oauth_nonce", []) ∷ []

header_pairs_once : NodupKeys header_pairs
unfolding bytes_eq
header_pairs_once = ((bytes_ne _ _ refl, tt), (tt, tt))

odd_header : parse_header (codes "OAuth a=b,c") ≡ raise (problem (some invalid_header) [])
unfolding parse_header parse_parts drop_trailing is_odd is_separator split_by
odd_header = refl

is_key : Bytes → Bool
is_key [] = true
is_key (c ∷ s) = not (is_reserved c) && is_key s

is_key-IsKey : (s : Bytes) → is_key s ≡ true → IsKey s
unfolding is_key
is_key-IsKey [] h = tt
is_key-IsKey (c ∷ s) h = ground (arith, is_key-IsKey s)

header_keys : KeyLines header_pairs
unfolding is_reserved is_key
header_keys = (
  (is_key-IsKey (codes "oauth_token") refl, omega arith),
  ((is_key-IsKey (codes "oauth_nonce") refl, omega arith), tt),
)

parse_header-header_text_example : parse_header (header_text none header_pairs) ≡ ok header_pairs
parse_header-header_text_example =
    parse_header-header_text header_pairs (cons-ne-nil _ _) header_pairs_once header_keys

callback_IsKey : IsKey (codes "oauth_callback")
unfolding is_reserved is_key
callback_IsKey = is_key-IsKey (codes "oauth_callback") refl

parse_header-line_feed_example :
    parse_header (header_text none ((codes "oauth_callback", codes "a" ++ 10 ∷ codes "b") ∷ []))
    ≡ ok ((codes "oauth_callback", b'"' ∷ (codes "a" ++ 10 ∷ codes "b") ++ b'"' ∷ []) ∷ [])
parse_header-line_feed_example =
    parse_header-line_feed (codes "oauth_callback") (codes "a") (codes "b") callback_IsKey
      (omega arith) (omega arith)
