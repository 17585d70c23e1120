-- ===== src/Docs/Frame.antt =====
-- The frame with a list of docs/js/app.js: `resetSearchFrame` and `toggleSearchFrame`. Whether a frame
-- without a style of its own is visible is up to the style sheet, and an argument.
pub mod Clicks
use oauth.Prelude.{
  ℕ, List, [], ◌∷◌, Bool, true, false, ◌&&◌, Option, none, some, Bytes, bytes_eq, ◌==◌,
  if◌then◌else◌, map,
}

-- A link of the search box, with the classes "active" and "inactive".
pub record FrameLink : Type 0 where
  pub key : ℕ
  pub active : Bool
  pub inactive : Bool

-- The attribute "src", and whether the style shows or hides the frame, if it has one.
pub record Frame : Type 0 where
  pub src : Option Bytes
  pub style : Option Bool

pub record SearchFrame : Type 0 where
  pub frame : Option Frame
  pub links : List FrameLink

-- `isVisible(frame)`
unfoldable pub is_shown : Bool → Frame → Bool
is_shown style_sheet f = elim f.style [ none ↦ style_sheet | some shown ↦ shown ]

-- `frame.getAttribute("src") === link`
unfoldable pub is_src : Option Bytes → Bytes → Bool
unfolding bytes_eq
is_src none link = false
is_src (some src) link = bytes_eq src link

unfoldable pub clear_link : FrameLink → FrameLink
clear_link l = record l { active = false; inactive = false }

unfoldable pub dim_link : FrameLink → FrameLink
dim_link l = record l { active = false; inactive = true }

-- The link that was clicked.
unfoldable pub light_link : ℕ → FrameLink → FrameLink
light_link key l = if l.key == key then record l { active = true; inactive = false } else l

unfoldable pub without_style : Option Frame → Option Frame
without_style none = none
without_style (some f) = some (record f { style = none })

unfoldable pub reset_search_frame : SearchFrame → SearchFrame
unfolding without_style clear_link
reset_search_frame s = record { frame = without_style s.frame; links = map clear_link s.links }

-- The branch that hides the frame, and the one that shows it.
unfoldable pub hide_frame : Frame → List FrameLink → SearchFrame
unfolding clear_link
hide_frame f links = record {
  frame = some (record f { style = some false });
  links = map clear_link links;
}

unfoldable pub show_frame : ℕ → Bytes → List FrameLink → SearchFrame
unfolding light_link
show_frame key link links = record {
  frame = some (record { src = some link; style = some true });
  links = map (light_link key) links;
}

toggle_with : Bool → ℕ → Bytes → SearchFrame → Option Frame → SearchFrame
toggle_with style_sheet key link s none = s
toggle_with style_sheet key link s (some f) =
    if is_src f.src link && is_shown style_sheet f
    then hide_frame f (map dim_link s.links)
    else show_frame key link (map dim_link s.links)

-- `toggleSearchFrame`, of the link with a key and an address
unfoldable pub toggle_search_frame : Bool → ℕ → Bytes → SearchFrame → SearchFrame
unfolding toggle_with dim_link
toggle_search_frame style_sheet key link s = toggle_with style_sheet key link s s.frame
