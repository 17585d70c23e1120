-- ===== src/Examples/Setups.antt =====
-- Inputs for the parts of docs/js/app.js that `window.__app` sets up.
use oauth.Prelude.{◌≡◌, refl, ◌≤◌, [], ◌∷◌, List, true, false, none, some, codes, length, bytes_eq}
use oauth.Docs.Resizer.{Pixels, Resizer, at_least_200, set_width, pointer_move, restore_width}
use oauth.Docs.Resizer.Restored.{truncated, restore_width-pointer_move}
use oauth.Docs.Reveal.{Box, new_source_link, is_shown_by}
use oauth.Docs.Reveal.Told.{Told, BoxTold, clicks, clicks_on_box, flips, clicked-Told}
use oauth.Docs.Constants.{Term, build_compact_constants}
use oauth.Docs.Constants.Compact.{constants, compact_line, build_compact_constants-constants}
use oauth.Docs.Setup.{Setup}
use oauth.Docs.Setup.Events.{Event, script, content_read, show, loaded, fired, run, load_frame}
use oauth.Docs.Setup.Expander.{PostsOnce, run-PostsOnce}

abbrev dragged_to : Pixels
dragged_to = record { negative = false; whole = 301; fraction = codes "5" }

abbrev new_resizer : Resizer
new_resizer = record { nav_width = none; nav_wraps = none ∷ [] }

restore_width-pointer_move_example :
    ((pointer_move 1 dragged_to new_resizer).nav_wraps
      ≡ set_width (at_least_200 dragged_to) (none ∷ []))
    × ((restore_width
          (record (pointer_move 1 dragged_to new_resizer) { nav_wraps = none ∷ [] })).nav_wraps
        ≡ set_width (truncated (at_least_200 dragged_to)) (none ∷ []))
    × ((at_least_200 dragged_to).negative ≡ false)
    × (200 ≤ (at_least_200 dragged_to).whole)
restore_width-pointer_move_example =
    restore_width-pointer_move 1 dragged_to new_resizer (none ∷ []) refl

abbrev new_setup : Setup
new_setup = record {
  navigation_listener_bound = false;
  navigation_change_bound = false;
  nav_resizer_bound = false;
  search_frame_globals_bound = false;
  nav_expander_timer = none;
  nav_expander_token = 0;
  window_listeners = [];
  links = record { bound = false; click_listeners = 0 } ∷ [];
  resizer = some new_resizer;
  resizer_listeners = [];
  has_frame = true;
  frame_listeners = [];
  timers = [];
  next_timer = 0;
  path_id = some (some (codes "OAuth"));
  posted = [];
  parts = [];
  loading = true;
  waiting = [];
}

abbrev some_events : List Event
some_events =
    show 2 (some (some (codes "OAuth::Token"))) true
    ∷ script
    ∷ loaded
    ∷ fired 0
    ∷ fired 1
    ∷ show 1 none false
    ∷ []

run-PostsOnce_example :
    PostsOnce
      (run (script ∷ content_read ∷ script ∷ []) new_setup)
      (load_frame (run (script ∷ content_read ∷ script ∷ []) new_setup))
    × (length (run (script ∷ content_read ∷ script ∷ []) new_setup).timers ≤ 1)
run-PostsOnce_example = run-PostsOnce (script ∷ content_read ∷ script ∷ []) new_setup refl refl

abbrev old_constant : Term
old_constant = record {
  text_content = codes "OUT_OF_BAND =";
  holds_deprecated = true;
  summary_signature = false;
  deprecated = false;
  title = none;
}

build_compact_constants-constants_example :
    build_compact_constants (record {
      class_name = codes "constants";
      children = constants ((old_constant, codes "oob") ∷ []);
    })
    ≡ some (record {
      class_name = codes "constants compact";
      children = compact_line (old_constant, codes "oob") ∷ [];
    })
build_compact_constants-constants_example =
    build_compact_constants-constants (codes "constants") ((old_constant, codes "oob") ∷ [])

abbrev open_box : Box
open_box = record { hidden = false; top = []; smalls = codes "none" ∷ [] }

clicked-Told_example :
    (Told false (clicks 2 false (new_source_link []))
      × (is_shown_by false (clicks 2 false (new_source_link [])).style ≡ false))
    × (BoxTold (clicks_on_box 2 open_box) × ((clicks_on_box 2 open_box).hidden ≡ false))
unfolding flips is_shown_by bytes_eq new_source_link
clicked-Told_example = clicked-Told 1 false (new_source_link []) open_box
