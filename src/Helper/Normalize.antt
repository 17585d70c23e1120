-- ===== src/Helper/Normalize.antt =====
-- `normalize` and `normalize_nested_query` of lib/oauth/helper.rb. The result is `none` where an
-- array mixes strings with nil, which raises ArgumentError in `sort`, or holds containers behind a
-- first element that is not a hash, whose `to_s` is not modelled.
pub mod Order
pub mod Wrapped
pub mod RoundTrip
pub mod Unordered
use mathlib.Core.Option
use oauth.Prelude.{
  List, [], ◌∷◌, ◌++◌, Bool, true, false, Option, none, some, Bytes, codes, map, if◌then◌else◌, ltb,
}
use oauth.Prelude.Order.{bytes_le, insertion_sort}
use oauth.Prelude.Split.{join}
use oauth.Params.{
  Value, null, str, arr, obj, Items, no_items, item, Fields, no_fields, field, Params,
}
use oauth.Helper.Escape.{escape}

-- `[escape(key), escape(value)].join("=")`
unfoldable pub pair_text : Bytes → Bytes → Bytes
pair_text key value = escape key ++ b'=' ∷ escape value

unfoldable pub sort_strings : List Bytes → List Bytes
unfolding insertion_sort bytes_le
sort_strings = insertion_sort bytes_le

-- `"#{prefix}[]"`, where a nil prefix is the empty text.
unfoldable pub array_prefix : Option Bytes → Bytes
array_prefix none = codes "[]"
array_prefix (some p) = p ++ codes "[]"

-- `prefix ? "#{prefix}[#{k}]" : k`
unfoldable pub hash_prefix : Option Bytes → Bytes → Bytes
hash_prefix none k = k
hash_prefix (some p) k = p ++ (codes "[" ++ (k ++ codes "]"))

unfoldable pub prefix_text : Option Bytes → Bytes
prefix_text none = []
prefix_text (some p) = p

unfoldable mutual
  pub normalize_nested_query : Value → Option Bytes → List Bytes
  normalize_nested_query null p = pair_text (prefix_text p) [] ∷ []
  normalize_nested_query (str v) p = pair_text (prefix_text p) v ∷ []
  normalize_nested_query (arr xs) p = sort_strings (nested_items xs (array_prefix p))
  normalize_nested_query (obj fs) p = sort_strings (nested_fields fs p)

  pub nested_items : Items → Bytes → List Bytes
  nested_items no_items p = []
  nested_items (item v xs) p = normalize_nested_query v (some p) ++ nested_items xs p

  pub nested_fields : Fields → Option Bytes → List Bytes
  nested_fields no_fields p = []
  nested_fields (field k v fs) p =
      normalize_nested_query v (some (hash_prefix p k)) ++ nested_fields fs p

-- The elements of an array that holds strings only.
strings : Items → Option (List Bytes)
strings no_items = some []
strings (item (str v) xs) = Option.map (λ vs. v ∷ vs) (strings xs)
strings (item _ xs) = none

-- The elements of an array that holds nil only, as `to_s` shows them.
nulls : Items → Option (List Bytes)
nulls no_items = some []
nulls (item null xs) = Option.map (λ vs. [] ∷ vs) (nulls xs)
nulls (item _ xs) = none

-- `values.sort`
unfoldable pub sort_values : Items → Option (List Bytes)
unfolding strings nulls
sort_values (item null xs) = nulls (item null xs)
sort_values xs = Option.map sort_strings (strings xs)

-- The text of one parameter; nested arrays are joined by "&" too.
unfoldable pub entry_text : Bytes → Value → Option Bytes
unfolding join sort_values
entry_text k null = some (pair_text k [])
entry_text k (str v) = some (pair_text k v)
entry_text k (obj fs) = some (join (b'&' ∷ []) (normalize_nested_query (obj fs) (some k)))
entry_text k (arr no_items) = some (pair_text k [])
entry_text k (arr (item (obj fs) xs)) =
    some (join (b'&' ∷ []) (normalize_nested_query (arr (item (obj fs) xs)) (some k)))
entry_text k (arr xs) = Option.map (λ vs. join (b'&' ∷ []) (map (pair_text k) vs)) (sort_values xs)

-- `params.sort`: the keys of a hash differ, so they alone decide the order.
abbrev pub key_le {ℓ} : {V : Type ℓ} → Bytes × V → Bytes × V → Bool
key_le p q = bytes_le p.0 q.0

unfoldable pub sort_params {ℓ} : {V : Type ℓ} → Params V → Params V
unfolding insertion_sort bytes_le
sort_params = insertion_sort key_le

unfoldable pub entry_texts : Params Value → Option (List Bytes)
unfolding entry_text
entry_texts [] = some []
entry_texts ((k, v) ∷ rest) = elim (entry_text k v) [
  | none ↦ none
  | some t ↦ Option.map (λ ts. t ∷ ts) (entry_texts rest)
]

unfoldable pub normalize : Params Value → Option Bytes
unfolding entry_texts sort_params join
normalize params = Option.map (join (b'&' ∷ [])) (entry_texts (sort_params params))
