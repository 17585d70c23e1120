-- ===== src/Docs/Toc.antt =====
-- `generateTOC` of docs/js/app.js: the loop over the headings. The nested lists are told by the
-- items in their order, each with the depth of its list: 0 for the top list.
pub mod Depths
pub mod Shown
use oauth.Prelude.{
  ℕ, zero, suc, ◌+◌, ◌-◌, List, [], ◌∷◌, ◌++◌, Bool, true, false, ◌||◌, ◌&&◌, Option, none, some,
  Bytes, codes, ltb, leb, ◌==◌, if◌then◌else◌, map, bytes_eq,
}
use oauth.Prelude.Ascii.{decimal}
use mathlib.Core.Option

-- A heading: the number in its tag, its texts, and whether it stands in a method's docstring.
pub record Heading : Type 0 where
  pub level : ℕ
  pub id : Bytes
  pub toc_id : Bytes
  pub toc_title : Bytes
  pub text_content : Bytes
  pub in_docstring : Bool

-- An item of the lists: an empty one that only holds a list, or the link to a heading.
pub data Item : Type 0 where
  holder : ℕ → Item
  link : ℕ → Bytes → Bytes → Item

-- `currentList` by its depth, `lastLevel`, whether there is a `currentItem`, `counter`, the ids of
-- the document, and the items so far.
pub record Toc : Type 0 where
  pub depth : ℕ
  pub last_level : ℕ
  pub has_item : Bool
  pub counter : ℕ
  pub ids : List Bytes
  pub items : List Item

-- `[^a-z0-9-]` with the flag i
unfoldable pub is_id_part : ℕ → Bool
is_id_part c =
    (leb b'a' c && leb c b'z')
    || (leb b'A' c && leb c b'Z')
    || (leb b'0' c && leb c b'9')
    || (c == b'-')

unfoldable pub id_text : Bytes → Bytes
unfolding is_id_part
id_text = map (λ c. if is_id_part c then c else b'_')

unfoldable pub has_id : Bytes → List Bytes → Bool
unfolding bytes_eq
has_id id [] = false
has_id id (other ∷ ids) = bytes_eq id other || has_id id ids

-- Whether "#" and a text of such characters is a selector: an identifier begins with a letter or a
-- low line, behind a hyphen or not, or with two hyphens.
is_name_start : ℕ → Bool
is_name_start c = (leb b'a' c && leb c b'z') || (leb b'A' c && leb c b'Z') || (c == b'_')

unfoldable pub is_id_selector : Bytes → Bool
unfolding is_name_start
is_id_selector [] = false
is_id_selector (c ∷ []) = is_name_start c
is_id_selector (c ∷ d ∷ rest) = is_name_start c || ((c == b'-') && (is_name_start d || (d == b'-')))

-- The text of a heading as its id, with the counter where the document has that id.
numbered : Bytes → Toc → Bytes × ℕ
numbered id t =
    if has_id id t.ids then (id ++ decimal t.counter, suc t.counter) else (id, t.counter)

-- Its id, the attribute "toc-id", or its text; `querySelector` throws a SyntaxError for "#" and a text
-- that is no selector, which is none.
id_from : Bytes → Bytes → Bytes → Toc → Option (Bytes × ℕ)
unfolding id_text is_id_selector numbered
id_from (c ∷ id) toc_id text t = some (c ∷ id, t.counter)
id_from [] (c ∷ id) text t = some (c ∷ id, t.counter)
id_from [] [] text t =
    if is_id_selector (id_text text) then some (numbered (id_text text) t) else none

-- The id of a heading, and the counter after it.
unfoldable pub heading_id : Heading → Toc → Option (Bytes × ℕ)
unfolding id_from has_id
heading_id heading t = id_from heading.id heading.toc_id heading.text_content t

-- `heading.getAttribute("toc-title") || heading.textContent`
unfoldable pub heading_title : Heading → Bytes
heading_title heading = elim heading.toc_title [ [] ↦ heading.text_content | c ∷ title ↦ c ∷ title ]

-- A new list in the current item, which is made if there is none.
unfoldable pub open_list : Toc → Toc
open_list t = record t {
  items = if t.has_item then t.items else t.items ++ holder t.depth ∷ [];
  depth = suc t.depth;
  last_level = suc t.last_level;
  has_item = false;
}

-- `while (level > lastLevel)`, which runs as often as the two differ.
unfoldable pub descend : ℕ → Toc → Toc
descend zero t = t
descend (suc rounds) t = descend rounds (open_list t)

unfoldable pub close_list : Toc → Toc
close_list t = record t { depth = t.depth - 1; last_level = t.last_level - 1 }

-- `while (level < lastLevel && currentList.parentElement)`: the top list has no parent yet.
unfoldable pub ascend : ℕ → ℕ → Toc → Toc
ascend level zero t = t
ascend level (suc rounds) t =
    let rest = ascend level rounds (close_list t) in
    if ltb level t.last_level && ltb 0 t.depth then rest else t

unfoldable pub to_level : ℕ → Toc → Toc
to_level level t =
    if ltb t.last_level level
    then descend (level - t.last_level) t
    else ascend level (t.last_level - level) t

-- The item of a heading, in the list that is current.
unfoldable pub append_item : Bytes → Bytes → Toc → Toc
append_item id title t = record t { items = t.items ++ link t.depth id title ∷ []; has_item = true }

unfoldable pub with_id : Bytes × ℕ → Toc → Toc
with_id (id, counter) t = record t { ids = id ∷ t.ids; counter = counter }

-- The rest of a round, with the id.
unfoldable pub add_named : Heading → Toc → Bytes × ℕ → Toc
unfolding to_level append_item with_id
add_named heading t named =
    append_item named.0 (heading_title heading) (to_level heading.level (with_id named t))

-- A round of the loop, for a heading that is not passed over.
unfoldable pub add_heading : Heading → Toc → Option Toc
unfolding add_named heading_id heading_title
add_heading heading t = Option.map (add_named heading t) (heading_id heading t)

-- `heading.closest(…)` and `heading.id === "filecontents"`
unfoldable pub is_passed_over : Heading → Bool
unfolding bytes_eq
is_passed_over heading = heading.in_docstring || bytes_eq heading.id (codes "filecontents")

unfoldable pub then_headings : (Toc → Option Toc) → Option Toc → Option Toc
then_headings rest none = none
then_headings rest (some t) = rest t

-- The loop, which a SyntaxError ends: then there is no table.
unfoldable pub add_headings : List Heading → Toc → Option Toc
unfolding then_headings
add_headings [] t = some t
add_headings (heading ∷ headings) t =
    then_headings (add_headings headings)
      (if is_passed_over heading then some t else add_heading heading t)

-- The table before the first heading, whose first level is 1 if there are several headings h1.
unfoldable pub empty_toc : Bool → List Bytes → Toc
empty_toc several_h1 ids = record {
  depth = 0;
  last_level = if several_h1 then 1 else 2;
  has_item = false;
  counter = 0;
  ids = ids;
  items = [];
}

unfoldable pub generate_toc : Bool → List Bytes → List Heading → Option (List Item)
generate_toc several_h1 ids headings =
    Option.map (λ t. t.items) (add_headings headings (empty_toc several_h1 ids))
