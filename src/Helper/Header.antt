-- ===== src/Helper/Header.antt =====
-- `parse_header` of lib/oauth/helper.rb, and the header that `header` of lib/oauth/client/helper.rb
-- and `oauth_header` of lib/oauth/request_proxy/base.rb write.
pub mod Parts
pub mod Fields
pub mod RoundTrip
pub mod LineFeed
use oauth.Prelude.{
  ℕ, zero, suc, List, [], ◌∷◌, ◌++◌, Bool, true, false, not, ◌||◌, ◌&&◌, Option, none, some, Bytes,
  codes, map, length, drop, ltb, leb, ◌==◌, if◌then◌else◌,
}
use oauth.Prelude.Split.{split_by, join}
use oauth.Params.{Params, store}
use oauth.Outcome.{Outcome, ok, raise, problem, no_method_error}
use oauth.Helper.Escape.{escape, unescape}

-- /[,=&]/
unfoldable pub is_separator : ℕ → Bool
is_separator c = c == b',' || c == b'=' || c == b'&'

-- What `strip` removes: whitespace and NUL.
unfoldable pub is_blank : ℕ → Bool
is_blank c = c == 0 || (leb 9 c && leb c 13) || c == b' '

unfoldable pub strip_left : Bytes → Bytes
unfolding is_blank
strip_left [] = []
strip_left (c ∷ s) = if is_blank c then strip_left s else c ∷ s

put_unless_blank : ℕ → Bytes → Bytes
put_unless_blank c [] = if is_blank c then [] else c ∷ []
put_unless_blank c (d ∷ s) = c ∷ d ∷ s

unfoldable pub strip_right : Bytes → Bytes
unfolding is_blank put_unless_blank
strip_right [] = []
strip_right (c ∷ s) = put_unless_blank c (strip_right s)

-- The first line with its line feed, and the rest.
unfoldable pub first_line : Bytes → Bytes × Bytes
first_line [] = ([], [])
first_line (c ∷ s) = if c == 10 then ([], c ∷ s) else (c ∷ (first_line s).0, (first_line s).1)

-- The text before a closing quote, if the line ends in one.
unfoldable pub before_quote : Bytes → Option Bytes
before_quote [] = none
before_quote (c ∷ []) = if c == b'"' then some [] else none
before_quote (c ∷ d ∷ s) = elim (before_quote (d ∷ s)) [ none ↦ none | some t ↦ some (c ∷ t) ]

-- The text between the quotes, if the line begins with one and ends in another.
unfoldable pub quoted_line : Bytes → Option Bytes
unfolding before_quote
quoted_line [] = none
quoted_line (c ∷ s) = if c == b'"' then before_quote s else none

-- `inner` is the text in quotes, `line` the line, `rest` what follows it, from its line feed on, and
-- `done` what becomes of the lines behind it.
unfoldable pub sub_line : Option Bytes → Bytes → Bytes → Bytes → Bytes
sub_line (some inner) line rest done = inner ++ rest
sub_line none line [] done = line
sub_line none line (feed ∷ more) done = line ++ feed ∷ done

-- The lines in turn, until one is in quotes; the count bounds the lines looked at.
unfoldable pub sub_quotes : ℕ → Bytes → Bytes
sub_quotes zero s = s
sub_quotes (suc n) s =
    sub_line (quoted_line (first_line s).0) (first_line s).0 (first_line s).1
      (sub_quotes n (drop 1 (first_line s).1))

-- `sub(/^"(.*)"$/, '\1')`: the first line that stands in quotes loses them. `^` and `$` match at
-- line feeds and `.` does not match one. No text has more lines than bytes and one.
unfoldable pub remove_quotes : Bytes → Bytes
remove_quotes val = sub_quotes (suc (length val)) val

-- What becomes of one part of the header.
unfoldable pub field_text : Bytes → Bytes
field_text v = remove_quotes (unescape (strip_right (strip_left v)))

attach : Bytes → List Bytes → List Bytes
attach [] [] = []
attach (c ∷ x) [] = (c ∷ x) ∷ []
attach x (y ∷ ys) = x ∷ y ∷ ys

-- `split` returns no empty parts at the end.
unfoldable pub drop_trailing : List Bytes → List Bytes
unfolding attach
drop_trailing [] = []
drop_trailing (x ∷ xs) = attach x (drop_trailing xs)

unfoldable pub is_odd : List Bytes → Bool
is_odd [] = false
is_odd (x ∷ xs) = not (is_odd xs)

-- `Hash[*params.flatten]`
unfoldable pub hash_of : List Bytes → Params Bytes → Params Bytes
unfolding store
hash_of (k ∷ v ∷ rest) hash = hash_of rest (store k v hash)
hash_of _ hash = hash

abbrev pub invalid_header : Bytes
invalid_header = codes "Invalid authorization header"

-- The parts of the header, in pairs.
unfoldable pub parse_parts : List Bytes → Outcome (Params Bytes)
parse_parts params =
    if is_odd params
    then raise (problem (some invalid_header) [])
    else ok (hash_of (map field_text params) [])

-- `header[6, header.length]` is nil for a shorter header, which has no `split`.
unfoldable pub parse_header : Bytes → Outcome (Params Bytes)
parse_header header =
    if ltb (length header) 6
    then raise no_method_error
    else parse_parts (drop_trailing (split_by is_separator (drop 6 header)))

-- `"#{k}=\"#{escape(v)}\""`
unfoldable pub header_field : Bytes × Bytes → Bytes
header_field (k, v) = k ++ b'=' ∷ (b'"' ∷ escape v ++ b'"' ∷ [])

unfoldable pub realm_text : Option Bytes → Bytes
realm_text none = []
realm_text (some realm) = codes "realm=\"" ++ (realm ++ codes "\", ")

-- `"OAuth #{realm}#{header_params_str}"`
unfoldable pub header_text : Option Bytes → Params Bytes → Bytes
unfolding join header_field realm_text
header_text realm params =
    codes "OAuth " ++ (realm_text realm ++ join (codes ", ") (map header_field params))
