-- ===== src/Docs/Toc/Shown.antt =====
-- `generateTOC` of docs/js/app.js with its guards: the table is put into a page once. A SyntaxError of
-- its loop is none.
use oauth.Prelude.{
  ◌≡◌, List, Bool, ◌&&◌, Option, none, some, Bytes, inl, inr, Bool-cases, if◌then◌else◌,
}
use mathlib.Core.Option
use oauth.Docs.Toc.{Item, Heading, Toc, empty_toc, add_headings}

-- A page, as far as the table is concerned: #filecontents, #content, and #toc inside it.
pub record TocPage : Type 0 where
  pub has_file_contents : Bool
  pub has_content : Bool
  pub toc : Option (List Item)
  pub several_h1 : Bool
  pub ids : List Bytes
  pub headings : List Heading

-- `if (!hasEntries) return`
unfoldable pub insert_toc : Toc → TocPage → TocPage
insert_toc t p = if t.has_item then record p { toc = some t.items; ids = t.ids } else p

insert_with : Option (List Item) → TocPage → Option TocPage
unfolding insert_toc
insert_with (some toc) p = some p
insert_with none p =
    Option.map (λ t. insert_toc t p) (add_headings p.headings (empty_toc p.several_h1 p.ids))

unfoldable pub generate_page_toc : TocPage → Option TocPage
unfolding insert_with
generate_page_toc p = if p.has_file_contents && p.has_content then insert_with p.toc p else some p

-- A table that is there is left alone.
pub generate_page_toc-kept :
    (p : TocPage) (toc : List Item) → p.toc ≡ some toc → generate_page_toc p ≡ some p
unfolding generate_page_toc insert_with
generate_page_toc-kept p toc e = elim (Bool-cases (p.has_file_contents && p.has_content)) [
  | inl places ↦ simp (places, e)
  | inr missing ↦ simp missing
]
