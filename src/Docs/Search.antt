-- ===== src/Docs/Search.antt =====
-- The search of docs/js/full_list.js: `populateSearchCache` to `buildMatchString`. The engine of
-- regular expressions is an argument: pattern, the flag i, text.
pub mod Batches
pub mod Names
pub mod Pattern
use oauth.Prelude.{
  ℕ, zero, suc, ◌+◌, List, [], ◌∷◌, ◌++◌, Bool, true, false, ◌&&◌, ◌||◌, not, Option, none, some,
  Bytes, codes, leb, ◌==◌, if◌then◌else◌, length, take, drop, min,
}
use oauth.Prelude.Lines.{include_text}
use oauth.Prelude.Split.{join}
use oauth.Prelude.Ascii.{decimal}

-- `\s` of a regular expression.
unfoldable pub is_space : ℕ → Bool
is_space c =
    (leb 9 c && leb c 13)
    || (c == 32)
    || (c == 160)
    || (c == 5760)
    || (leb 8192 c && leb c 8202)
    || (c == 8232)
    || (c == 8233)
    || (c == 8239)
    || (c == 8287)
    || (c == 12288)
    || (c == 65279)

-- The class of code units that are escaped; a backslash is one.
unfoldable pub is_special : ℕ → Bool
unfolding is_space
is_special c =
    (c == b'-')
    || (c == b'[')
    || (c == b']')
    || (c == b'{')
    || (c == b'}')
    || (c == b'(')
    || (c == b')')
    || (c == b'*')
    || (c == b'+')
    || (c == b'?')
    || (c == b'.')
    || (c == b',')
    || (c == 92)
    || (c == b'^')
    || (c == b'$')
    || (c == b'|')
    || (c == b'#')
    || is_space c

-- `RegExp.escape`
unfoldable pub regexp_escape : Bytes → Bytes
regexp_escape [] = []
regexp_escape (c ∷ text) =
    if is_special c then 92 ∷ c ∷ regexp_escape text else c ∷ regexp_escape text

-- `/[A-Z]/.test(searchString)`, which sets `caseSensitiveMatch`.
unfoldable pub case_sensitive_match : Bytes → Bool
case_sensitive_match [] = false
case_sensitive_match (c ∷ text) = (leb b'A' c && leb c b'Z') || case_sensitive_match text

-- The escaped characters, one by one.
unfoldable pub escaped_characters : Bytes → List Bytes
unfolding regexp_escape
escaped_characters [] = []
escaped_characters (c ∷ text) = regexp_escape (c ∷ []) ∷ escaped_characters text

unfoldable pub build_match_string : Bytes → Bytes
unfolding case_sensitive_match escaped_characters regexp_escape
build_match_string text =
    if case_sensitive_match text
    then regexp_escape text ++ (codes "|" ++ join (codes ".+?") (escaped_characters text))
    else regexp_escape text

-- The classes of the rows.
pub data RowClass : Type 0 where
  r1 : RowClass
  r2 : RowClass

-- An item of `searchCache`, with the classes of its node and what its link shows.
pub record Entry : Type 0 where
  pub name : Bytes
  pub full_name : Bytes
  pub found : Bool
  pub has_r1 : Bool
  pub has_r2 : Bool
  pub inner_html : Bytes

-- `classList.remove` and `classList.add`
unfoldable pub remove_class : RowClass → Entry → Entry
remove_class r1 e = record e { has_r1 = false }
remove_class r2 e = record e { has_r2 = false }

unfoldable pub add_class : RowClass → Entry → Entry
add_class r1 e = record e { has_r1 = true }
add_class r2 e = record e { has_r2 = true }

remove_last : Option RowClass → Entry → Entry
remove_last none e = e
remove_last (some c) e = remove_class c e

-- `lastRowClass === "r1" ? "r2" : "r1"`
unfoldable pub next_class : Option RowClass → RowClass
next_class (some r1) = r2
next_class (some r2) = r1
next_class none = r1

-- The classes of a match, and `lastRowClass` after it.
unfoldable pub mark_row : Option RowClass → Entry → Entry × RowClass
unfolding remove_class add_class remove_last next_class
mark_row last e =
    let marked = add_class (next_class last) (remove_last last (record e { found = true })) in
    (marked, if marked.has_r1 then r1 else r2)

module _ (regexp_test : Bytes → Bool → Bytes → Bool)
    (regexp_strong : Bytes → Bool → Bytes → Bytes) where
  -- `searchName.match(matchRegexp)`
  unfoldable pub is_match : Bytes → Entry → Bool
  unfolding include_text
  is_match text e =
      regexp_test (build_match_string text) (not (case_sensitive_match text))
        (if include_text (codes "::") text then e.full_name else e.name)

  -- The branch of a match.
  found_entry : Bytes → Entry → Entry × RowClass → Entry × Option RowClass
  found_entry text e (marked, c) = (
    record marked {
      inner_html = regexp_strong (build_match_string text) (not (case_sensitive_match text)) e.name;
    },
    some c,
  )

  -- A round of the loop of `partialSearch`.
  unfoldable pub search_entry : Bytes → Option RowClass → Entry → Entry × Option RowClass
  unfolding found_entry
  search_entry text last e =
      if is_match text e
      then found_entry text e (mark_row last e)
      else (record e { found = false }, last)

  -- The loop, on the items of one batch.
  unfoldable pub search_batch : Bytes → Option RowClass → List Entry → List Entry
  search_batch text last [] = []
  search_batch text last (e ∷ es) =
      let (e', last') = search_entry text last e in e' ∷ search_batch text last' es

  -- `partialSearch`: the cache after the batch, and the offset of the next, if there is one.
  unfoldable pub partial_search : Bytes → List Entry → ℕ → List Entry × Option ℕ
  partial_search text cache offset =
      let next = min (offset + 50) (length cache) in
      (
        take offset cache
            ++ (search_batch text none (take 50 (drop offset cache))
                ++ drop 50 (drop offset cache)),
        if next == length cache then none else some next,
      )

  -- What follows a batch: the end of the search, or the next batch from a timeout.
  resume : (List Entry → ℕ → Option (List Entry)) → List Entry × Option ℕ → Option (List Entry)
  resume again (cache, none) = some cache
  resume again (cache, some next) = again cache next

  -- The batches from an offset, on fuel; a new search clears the timeout and begins at 0.
  unfoldable pub search_from : ℕ → Bytes → List Entry → ℕ → Option (List Entry)
  unfolding resume
  search_from zero text cache offset = none
  search_from (suc fuel) text cache offset =
      resume (search_from fuel text) (partial_search text cache offset)

-- What `searchDone` tells of the number of visible items.
unfoldable pub results_text : ℕ → Bytes
results_text zero = codes "No results were found."
results_text (suc n) = codes "There are " ++ (decimal (suc n) ++ codes " results.")
