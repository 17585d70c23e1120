-- ===== src/Examples/Scripts.antt =====
-- Inputs for docs/js/app.js and docs/js/full_list.js.
use oauth.Prelude.{
  ℕ, ◌≤◌, ◌≡◌, ◌↔◌, refl, ap, [], ◌∷◌, ◌++◌, List, Bool, true, false, Option, none, some, Bytes,
  codes, bytes_eq, arith,
}
use mathlib.Core.Option.{some-injective}
use oauth.Docs.Loading.{Loading, show, tick, cancel_main_loading, fire, run_tick, whole}
use oauth.Docs.Loading.Timers.{WellTimed}
use oauth.Docs.Loading.Invariant.{OnlyHide, cancel_main_loading-OnlyHide, fire-WellTimed}
use oauth.Docs.Loading.Progress.{run_tick_mono, TicksOn}
use oauth.Docs.Page.{Url, Browser, Page, NavigationOptions, Pending, App, same_document_url}
use oauth.Docs.Navigation.{navigate, step, load, navigate_to}
use oauth.Docs.Navigation.Latest.{
  Current, PendingLatest, last_asked, ShowsAsked, load-ShowsAsked, step-Current,
}
use oauth.Docs.Navigation.Dropped.{load-navigate_within}
use oauth.Docs.Search.{Entry, search_from, regexp_escape}
use oauth.Docs.Search.Batches.{Finished, search_from-Finished}
use oauth.Docs.Search.Pattern.{literal_from, literal-regexp_escape}
use oauth.Docs.Tree.{Element, Row, expand_to, highlight}
use oauth.Docs.Tree.Expanded.{Open, OpenBelow, expand_to-Open}
use oauth.Docs.Tree.Rows.{StripedFrom, visible_rows, highlight-Striped}
use oauth.Docs.Toc.{
  Heading, Item, generate_toc, is_passed_over, id_text, is_id_selector, add_headings, add_heading,
  heading_id,
}
use oauth.Docs.Toc.Depths.{link_depths, levels_from, is_nameable, generate_toc-depths}

-- The indicator is shown, its next tick is pending, and a navigation has scheduled another.
abbrev ticking : Loading
ticking = record {
  loading_indicator_timer = some 4;
  loading_progress_timer = some 3;
  loading_progress_hide_timer = none;
  timers = (4, show 2) ∷ (3, tick 100) ∷ [];
  next_timer = 5;
  has_main = true;
  has_indicator = true;
  body_loading = true;
  main_loading = true;
  aria_busy = true;
  progress = 990;
}

ticking-WellTimed : WellTimed ticking
ticking-WellTimed = (refl, (refl, tt))

cancel_main_loading-OnlyHide_example : OnlyHide (cancel_main_loading ticking)
cancel_main_loading-OnlyHide_example = cancel_main_loading-OnlyHide ticking ticking-WellTimed

fire-WellTimed_example : WellTimed (fire 2 500 4 ticking)
fire-WellTimed_example = fire-WellTimed 2 500 4 ticking ticking-WellTimed

run_tick_mono_example :
    ((run_tick 100 600 ticking).progress ≤ (run_tick 100 11100 ticking).progress)
    × ((run_tick 100 11100 ticking).progress ≤ whole)
    × (((run_tick 100 11100 ticking).progress ≡ whole) ↔ (11000 ≤ 11000))
    × TicksOn 100 11000 ticking (run_tick 100 11100 ticking)
run_tick_mono_example = run_tick_mono 100 600 11100 ticking ticking (omega arith) refl refl

-- Addresses with a hash, told apart by their first letter.
abbrev letter_url : Bytes → Option Url
letter_url [] = none
letter_url (c ∷ text) =
    some (record { href = c ∷ text; origin = []; pathname = c ∷ []; search = []; hash = text })

abbrev letters : Browser
letters = record {
  new_url = λ url base. letter_url url;
  without_hash = λ u. u.pathname;
  decode_uri_component = λ text. some text;
}

abbrev a_page : Page
a_page = record {
  main = some (codes "<h1>A</h1>");
  ids = codes "x" ∷ [];
  title = codes "A";
  class_list_link = none;
  path_id = none;
  relpath = none;
}

abbrev from_list : NavigationOptions
from_list = record { push_history = true; sync_nav = false }

-- Page a is shown, and page b is loading.
abbrev b_pending : Pending
b_pending = record { navigation_id = 2; resolved_url = codes "b"; options = from_list }

abbrev a_shown : App
a_shown = record {
  latest_navigation_id = 2;
  current_url = codes "a";
  location = codes "a";
  page = a_page;
  onload = some b_pending;
  loader_src = some (codes "b");
  loading = ticking;
  calls = [];
}

pending-b :
    (p : Pending)
    → b_pending ≡ p
    → (p.navigation_id ≤ 2) × (p.navigation_id ≡ 2 → some (codes "b") ≡ some p.resolved_url)
pending-b p e = (rw (← e) (omega arith), λ _. ap (λ q. some q.resolved_url) e)

b_pending-PendingLatest : PendingLatest 2 (some b_pending) (some (codes "b"))
b_pending-PendingLatest p e = pending-b p (some-injective b_pending p e)

a_shown-Current : Current a_shown (some (codes "b"))
a_shown-Current = (b_pending-PendingLatest, ticking-WellTimed)

load-ShowsAsked_example :
    ShowsAsked letters (some (codes "b")) a_shown (load letters (some a_page) a_shown)
load-ShowsAsked_example =
    load-ShowsAsked letters (some a_page) a_shown (some (codes "b")) a_shown-Current

step-Current_example :
    Current
      (step letters (navigate (codes "c") from_list) a_shown)
      (last_asked letters (navigate (codes "c") from_list) a_shown (some (codes "b")))
step-Current_example =
    step-Current letters (navigate (codes "c") from_list) a_shown (some (codes "b")) a_shown-Current

load-navigate_within_example :
    (load letters (some a_page) (navigate_to letters (codes "a#x") from_list a_shown)
      ≡ navigate_to letters (codes "a#x") from_list a_shown)
    × ((navigate_to letters (codes "a#x") from_list a_shown).loading ≡ ticking)
unfolding same_document_url bytes_eq
load-navigate_within_example =
    load-navigate_within letters (some a_page) (codes "a#x") from_list a_shown (some (codes "b"))
      (record { href = codes "a"; origin = []; pathname = codes "a"; search = []; hash = [] })
      (record {
        href = codes "a#x";
        origin = [];
        pathname = codes "a";
        search = [];
        hash = codes "#x";
      })
      a_shown-Current refl refl refl

-- A mock of regular expressions, which finds equal texts only.
abbrev equal_text : Bytes → Bool → Bytes → Bool
equal_text pattern ignore_case text = bytes_eq pattern text

abbrev same_text : Bytes → Bool → Bytes → Bytes
same_text pattern ignore_case text = text

abbrev entry_of : Bytes → Entry
entry_of name = record {
  name = name;
  full_name = codes "OAuth::" ++ name;
  found = true;
  has_r1 = true;
  has_r2 = false;
  inner_html = name;
}

abbrev two_entries : List Entry
two_entries = entry_of (codes "sign") ∷ entry_of (codes "verify") ∷ []

search_from-Finished_example :
    Finished equal_text same_text
      (codes "sign")
      two_entries
      (search_from equal_text same_text 2 (codes "sign") two_entries 0)
search_from-Finished_example =
    search_from-Finished equal_text same_text 1 (codes "sign") [] two_entries tt (omega arith)

literal-regexp_escape_example :
    literal_from false (regexp_escape (codes "a.b c")) ≡ some (codes "a.b c")
literal-regexp_escape_example = literal-regexp_escape (codes "a.b c")

abbrev element : Bytes → Bool → Element
element id collapsed = record {
  id = id;
  is_li = true;
  is_body = false;
  displayed = true;
  collapsed = collapsed;
  aria_expanded = some false;
}

abbrev above_target : List Element
above_target = element (codes "object_OAuth") true ∷ element (codes "full_list") false ∷ []

expand_to-Open_example :
    Open (expand_to (element (codes "object_OAuth::Consumer") true) [] above_target).0
    × OpenBelow (expand_to (element (codes "object_OAuth::Consumer") true) [] above_target).2
expand_to-Open_example =
    expand_to-Open (element (codes "object_OAuth::Consumer") true) [] above_target

abbrev row : ℕ → Bool → Row
row key visible = record { key = key; visible = visible; odd = true; even = true; clicked = false }

abbrev three_rows : List Row
three_rows = row 0 true ∷ row 1 false ∷ row 2 true ∷ []

highlight-Striped_example : StripedFrom 0 (visible_rows (highlight three_rows))
highlight-Striped_example = highlight-Striped three_rows

abbrev heading : ℕ → Bytes → Heading
heading level text = record {
  level = level;
  id = [];
  toc_id = [];
  toc_title = [];
  text_content = text;
  in_docstring = false;
}

abbrev three_headings : List Heading
three_headings =
    heading 2 (codes "Usage") ∷ heading 4 (codes "Signing") ∷ heading 2 (codes "Usage") ∷ []

generate_toc-depths_example :
    (items : List Item) × (generate_toc false (codes "Usage" ∷ []) three_headings ≡ some items)
    × (link_depths items ≡ 0 ∷ 2 ∷ 0 ∷ [])
unfolding levels_from is_passed_over bytes_eq is_nameable id_text is_id_selector
generate_toc-depths_example =
    generate_toc-depths false (codes "Usage" ∷ []) three_headings (omega arith)
      (refl, (refl, (refl, tt)))

-- A heading whose text begins with a digit, and has no id: there is no table.
digit_heading : generate_toc false [] (heading 2 (codes "1.0 release") ∷ []) ≡ none
unfolding generate_toc add_headings add_heading heading_id is_passed_over bytes_eq id_text
    is_id_selector
digit_heading = refl
