-- ===== src/Docs/Constants/Compact.antt =====
-- The compact copy of a list of constants, each of them a `dt` with a `dd` of its value.
use oauth.Prelude.{
  ◌≡◌, refl, ap, List, [], ◌∷◌, ◌++◌, Bool, true, false, ◌||◌, Option, none, some, Bytes, codes,
  if◌then◌else◌, map,
}
use oauth.Docs.Constants.{
  Term, Child, dt, dd, before_equals, name_term, name_child, tooltip, set_title, set_titles,
  titles_from, set_all_titles, without_dd, remove_rest, build_compact_constants,
}

-- The constants of a page with their values.
unfoldable pub constants : List (Term × Bytes) → List Child
constants [] = []
constants ((t, value) ∷ cs) = dt t ∷ dd (value ∷ []) false none ∷ constants cs

-- The line of a constant in the compact copy: its name, and its value as the tooltip.
unfoldable pub compact_line : Term × Bytes → Child
compact_line (t, value) = dt (record {
  text_content = before_equals t.text_content;
  holds_deprecated = false;
  summary_signature = true;
  deprecated = t.holds_deprecated || t.deprecated;
  title =
      some (if t.holds_deprecated || t.deprecated then codes "Deprecated. " ++ value else value);
})

titles_from-constants :
    (pres : List Bytes) (d : Bool) (title : Option Bytes) (cs : List (Term × Bytes))
    → without_dd (titles_from (dd pres d title) (map name_child (constants cs)))
      ≡ map compact_line cs
unfolding without_dd titles_from set_titles set_title tooltip name_child name_term constants
    compact_line
titles_from-constants pres d title [] = refl
titles_from-constants pres d title ((t, value) ∷ cs) =
    ap (compact_line (t, value) ∷◌) (titles_from-constants (value ∷ []) false none cs)

-- The compact copy of a list of constants has one line for each of them, in their order, and nothing
-- else: the text in front of the first "=", marked as a summary, and the value as its tooltip, with
-- "Deprecated. " before it where the constant is deprecated.
pub build_compact_constants-constants :
    (class_name : Bytes) (cs : List (Term × Bytes))
    → build_compact_constants (record { class_name = class_name; children = constants cs })
      ≡ some (record { class_name = codes "constants compact"; children = map compact_line cs })
unfolding build_compact_constants remove_rest set_all_titles constants name_child name_term
    titles_from set_titles set_title tooltip without_dd compact_line
build_compact_constants-constants class_name [] = refl
build_compact_constants-constants class_name ((t, value) ∷ cs) =
    ap
      (λ rest. some (record {
        class_name = codes "constants compact";
        children = compact_line (t, value) ∷ rest;
      }))
      (titles_from-constants (value ∷ []) false none cs)
