-- ===== src/Examples/Links.antt =====
-- Inputs for the links of docs/js/app.js.
use oauth.Prelude.{
  ◌≡◌, refl, [], ◌∷◌, List, true, false, none, some, codes, bytes_eq, All, map, ◌≢◌,
}
use oauth.Docs.Frame.{FrameLink, Frame, SearchFrame, clear_link, is_src, toggle_search_frame}
use oauth.Docs.Frame.Clicks.{Lit, toggle_search_frame-twice}
use oauth.Docs.Summary.{Toggle, Summaries, full_only, no_list}
use oauth.Docs.Summary.Reload.{Consistent}
use oauth.Docs.Unfold.{Unfolding}

abbrev two_links : List FrameLink
two_links =
    record { key = 0; active = true; inactive = false }
    ∷ record { key = 1; active = false; inactive = true }
    ∷ []

abbrev class_list : Frame
class_list = record { src = some (codes "class_list.html"); style = some true }

abbrev class_list_shown : SearchFrame
class_list_shown = record { frame = some class_list; links = two_links }

toggle_search_frame-twice_example :
    ((toggle_search_frame false 1 (codes "file_list.html") class_list_shown).frame
      ≡ some (record { src = some (codes "file_list.html"); style = some true }))
    × All (Lit 1) (toggle_search_frame false 1 (codes "file_list.html") class_list_shown).links
    × (toggle_search_frame false 1
          (codes "file_list.html")
          (toggle_search_frame false 1 (codes "file_list.html") class_list_shown)
        ≡ record {
          frame = some (record { src = some (codes "file_list.html"); style = some false });
          links = map clear_link two_links;
        })
unfolding is_src bytes_eq
toggle_search_frame-twice_example =
    toggle_search_frame-twice false 1 (codes "file_list.html") class_list_shown class_list refl refl

abbrev folded : Unfolding
folded = record {
  expanded = none;
  height = none;
  text_content = codes "more...";
  shown = false;
  style_height = none;
}

none-ne : none ≢ some true
none-ne e = cc

abbrev full_toggle : Toggle
full_toggle = record { text_content = codes "collapse"; lists = full_only true }

abbrev two_toggles : List Toggle
two_toggles = full_toggle ∷ record { text_content = codes "collapse"; lists = no_list } ∷ []

abbrev full_summaries : Summaries
full_summaries = record { toggles = two_toggles; summary_collapsed = none }

two_toggles-Consistent : All (Consistent false) two_toggles
two_toggles-Consistent = ((refl, (refl, refl)), ((refl, tt), tt))
