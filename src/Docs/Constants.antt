-- ===== src/Docs/Constants.antt =====
-- `buildCompactConstants` of docs/js/app.js, on the children of a list of constants.
pub mod Compact
use oauth.Prelude.{
  ℕ, List, [], ◌∷◌, ◌++◌, Bool, true, false, ◌||◌, Option, none, some, Bytes, codes, ◌==◌,
  if◌then◌else◌, map,
}

-- A `dt`, with whether an element of class "deprecated" stands in it, and its own classes.
pub record Term : Type 0 where
  pub text_content : Bytes
  pub holds_deprecated : Bool
  pub summary_signature : Bool
  pub deprecated : Bool
  pub title : Option Bytes

-- A child of the list: a `dt`, or a `dd` with the texts of the elements `pre.code` that are its
-- children, its own class "deprecated" and its title.
pub data Child : Type 0 where
  dt : Term → Child
  dd : List Bytes → Bool → Option Bytes → Child

-- `split("=")[0]`
unfoldable pub before_equals : Bytes → Bytes
before_equals [] = []
before_equals (c ∷ text) = let rest = before_equals text in if c == b'=' then [] else c ∷ rest

-- The round of the first loop for a `dt`. The text that is set takes the place of what stood in it.
unfoldable pub name_term : Term → Term
unfolding before_equals
name_term t = record t {
  text_content = before_equals t.text_content;
  holds_deprecated = false;
  summary_signature = true;
  deprecated = t.holds_deprecated || t.deprecated;
}

unfoldable pub name_child : Child → Child
unfolding name_term
name_child (dt t) = dt (name_term t)
name_child (dd pres deprecated title) = dd pres deprecated title

tooltip : Bool → Bytes → Bytes
tooltip deprecated text = if deprecated then codes "Deprecated. " ++ text else text

-- The round of the second loop for a `pre.code`, on the element before the parent.
unfoldable pub set_title : Child → Bytes → Child
unfolding tooltip
set_title (dt t) text = dt (record t { title = some (tooltip t.deprecated text) })
set_title (dd pres deprecated title) text = dd pres deprecated (some (tooltip deprecated text))

set_titles : Child → List Bytes → Child
unfolding set_title
set_titles child [] = child
set_titles child (pre ∷ pres) = set_titles (set_title child pre) pres

-- The rounds behind an element.
unfoldable pub titles_from : Child → List Child → List Child
unfolding set_titles
titles_from child [] = child ∷ []
titles_from child (dt t ∷ rest) = child ∷ titles_from (dt t) rest
titles_from child (dd pres deprecated title ∷ rest) =
    set_titles child pres ∷ titles_from (dd pres deprecated title) rest

-- The second loop; `none` where no element stands before the parent, which throws.
unfoldable pub set_all_titles : List Child → Option (List Child)
unfolding titles_from
set_all_titles [] = some []
set_all_titles (dd (pre ∷ pres) deprecated title ∷ rest) = none
set_all_titles (child ∷ rest) = some (titles_from child rest)

-- The third loop removes what is not a `dt`.
unfoldable pub without_dd : List Child → List Child
without_dd [] = []
without_dd (dt t ∷ rest) = dt t ∷ without_dd rest
without_dd (dd pres deprecated title ∷ rest) = without_dd rest

pub record ConstantList : Type 0 where
  pub class_name : Bytes
  pub children : List Child

remove_rest : Option (List Child) → Option ConstantList
unfolding without_dd
remove_rest none = none
remove_rest (some children) =
    some (record { class_name = codes "constants compact"; children = without_dd children })

unfoldable pub build_compact_constants : ConstantList → Option ConstantList
unfolding name_child set_all_titles remove_rest
build_compact_constants l = remove_rest (set_all_titles (map name_child l.children))
