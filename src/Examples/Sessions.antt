-- ===== src/Examples/Sessions.antt =====
-- Inputs for the session of docs/js/full_list.js, and for the nodes of docs/js/app.js.
use oauth.Prelude.{
  ◌≡◌, refl, [], ◌∷◌, ◌++◌, List, true, false, none, some, Bytes, Bool, ℕ, codes, bytes_eq, arith,
}
use oauth.Docs.Start.{scroll_expanded, populate_search_cache}
use oauth.Docs.Search.{Entry}
use oauth.Docs.Session.{
  Session, Li, visible_count, Event, input, time_out, toggle, click, run, update_search_results,
}
use oauth.Docs.Session.Follows.{asked_after, asked_by, Follows, run-Follows}
use oauth.Docs.Session.Ends.{Told, run_timeouts, update_search_results-Told}
use oauth.Docs.Summary.{click_toggle}
use oauth.Docs.Summary.Nodes.{Page, container, other, summary_list, click_page}
use oauth.Docs.Summary.Nodes.Refines.{Owned, view_page, click_page-view}

-- A mock of regular expressions, which finds equal texts only.
abbrev equal_text : Bytes → Bool → Bytes → Bool
equal_text pattern ignore_case text = bytes_eq pattern text

abbrev same_text : Bytes → Bool → Bytes → Bytes
same_text pattern ignore_case text = text

abbrev lost_entry : Bytes → Entry
lost_entry name = record {
  name = name;
  full_name = codes "OAuth::" ++ name;
  found = false;
  has_r1 = false;
  has_r2 = false;
  inner_html = name;
}

abbrev li : ℕ → List ℕ → Bool → Li
li key above collapsed = record {
  key = key;
  above = above;
  collapsed = collapsed;
  odd = false;
  even = false;
  clicked = false;
}

abbrev new_session : Session
new_session = record {
  cache = lost_entry (codes "sign") ∷ lost_entry (codes "verify") ∷ [];
  timeout = none;
  lis = li 0 [] true ∷ li 1 (0 ∷ []) false ∷ [];
  clicked = none;
  list_insearch = false;
  content_insearch = false;
  results = [];
  results_shown = false;
}

abbrev some_events : List Event
some_events = input (codes "sign") ∷ toggle 0 ∷ click 1 ∷ input (codes "verify") ∷ time_out ∷ []

run-Follows_example :
    Follows equal_text same_text new_session.cache
      (codes "verify")
      (run equal_text same_text some_events new_session)
unfolding asked_by asked_after
run-Follows_example =
    run-Follows equal_text same_text new_session.cache some_events [] new_session
      (((refl, (refl, tt)), refl, refl), ((refl, refl), ((refl, refl), tt)))

update_search_results-Told_example : Told equal_text same_text (visible_count new_session.lis) (
    run_timeouts equal_text same_text 1
      (update_search_results equal_text same_text (codes "sign") new_session))
update_search_results-Told_example =
    update_search_results-Told equal_text same_text 1 b's' (codes "ign") new_session (omega arith)

abbrev two_summaries : Page
two_summaries = record {
  nodes =
      other 0
      ∷ container (codes "collapse")
      ∷ other 1
      ∷ summary_list true false
      ∷ summary_list false true
      ∷ container (codes "collapse")
      ∷ summary_list false true
      ∷ [];
  summary_collapsed = none;
}

click_page-view_example :
    (view_page (click_page 1 two_summaries) ≡ click_toggle 1 (view_page two_summaries))
    × Owned (click_page 1 two_summaries).nodes
click_page-view_example = click_page-view 1 two_summaries (refl, (tt, tt))

-- A target above what the window shows counts as in view, and is not scrolled to.
above_stays :
    scroll_expanded
      (record { x = 0; y = 1000; height = 600; max_y = 5000 })
      (record { left = 0; top = 100; bottom = 120 })
    ≡ record { x = 0; y = 1000; height = 600; max_y = 5000 }
unfolding scroll_expanded
above_stays = refl

-- A link without a title ends the filling of the cache.
untitled_ends :
    (populate_search_cache
      (record { link = some (codes "a", none); found = false; has_r1 = false; has_r2 = false } ∷ [])
      []).0
    ≡ false
unfolding populate_search_cache
untitled_ends = refl
