-- ===== src/Docs/Reveal.antt =====
-- The links of docs/js/app.js that show and hide an element: `createSourceLinks`, and the box that
-- `generateTOC` puts around the table of contents.
pub mod Told
use oauth.Prelude.{List, [], Bool, true, false, not, Bytes, codes, bytes_eq, if◌then◌else◌, map}

-- `toggleDisplay`: the value that `style.display` gets.
unfoldable pub toggle_display : Bool → Bytes → Bytes
toggle_display visible value = if visible then value else codes "none"

-- `isVisible` of an element with this `style.display`, and with what the style sheet says without one.
unfoldable pub is_shown_by : Bool → Bytes → Bool
unfolding bytes_eq
is_shown_by by_sheet [] = by_sheet
is_shown_by by_sheet style = not (bytes_eq style (codes "none"))

-- A link of `createSourceLinks`, with its source code.
pub record SourceLink : Type 0 where
  pub text_content : Bytes
  pub style : Bytes

unfoldable pub new_source_link : Bytes → SourceLink
new_source_link style = record { text_content = codes "View source"; style = style }

click_expanded : Bool → SourceLink
unfolding toggle_display
click_expanded expanded = record {
  text_content = if expanded then codes "View source" else codes "Hide source";
  style = toggle_display (not expanded) (codes "table");
}

unfoldable pub click_source : Bool → SourceLink → SourceLink
unfolding click_expanded is_shown_by
click_source by_sheet l = click_expanded (is_shown_by by_sheet l.style)

-- The box, with its class "hidden", the style of its list, and those of the small texts of its title.
pub record Box : Type 0 where
  pub hidden : Bool
  pub top : Bytes
  pub smalls : List Bytes

unfoldable pub click_hide_toc : Box → Box
unfolding toggle_display
click_hide_toc box = record {
  hidden = not box.hidden;
  top = toggle_display box.hidden [];
  smalls = map (λ style. toggle_display (not box.hidden) []) box.smalls;
}
