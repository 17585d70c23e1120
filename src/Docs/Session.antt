-- ===== src/Docs/Session.antt =====
-- A session with the list of docs/js/full_list.js: `enableSearch`, `clearSearch`, `performSearch`,
-- `partialSearch` and `searchDone` over the inputs of the user and the timeouts of the browser, with
-- `toggleItem` and `setClicked` between them. `searchTimeout` holds what its callback has captured.
-- An LI is hidden where one above it is collapsed: the rules of docs/css/full_list.css give `display`
-- to LI in no other way.
pub mod Follows
pub mod Ends
use oauth.Prelude.{
  ℕ, zero, suc, List, [], ◌∷◌, Bool, true, false, not, ◌&&◌, ◌||◌, Option, none, some, Bytes, ◌==◌,
  if◌then◌else◌, length, map,
}
use oauth.Docs.Search.{Entry, partial_search, results_text}
use oauth.Docs.Tree.{Row, highlight, set_clicked}
use oauth.Docs.Tree.Rows.{visible_rows}

-- An LI, with the keys of those above it.
pub record Li : Type 0 where
  pub key : ℕ
  pub above : List ℕ
  pub collapsed : Bool
  pub odd : Bool
  pub even : Bool
  pub clicked : Bool

pub record Session : Type 0 where
  pub cache : List Entry
  pub timeout : Option (Bytes × ℕ)
  pub lis : List Li
  -- the key of `clicked`
  pub clicked : Option ℕ
  pub list_insearch : Bool
  pub content_insearch : Bool
  pub results : Bytes
  pub results_shown : Bool

unfoldable pub has_key : ℕ → List ℕ → Bool
has_key key [] = false
has_key key (k ∷ keys) = k == key || has_key key keys

-- Some LI of the list is collapsed and above.
unfoldable pub is_hidden : List Li → List ℕ → Bool
unfolding has_key
is_hidden [] above = false
is_hidden (l ∷ lis) above = (l.collapsed && has_key l.key above) || is_hidden lis above

unfoldable pub row_of : List Li → Li → Row
unfolding is_hidden
row_of lis l = record {
  key = l.key;
  visible = not (is_hidden lis l.above);
  odd = l.odd;
  even = l.even;
  clicked = l.clicked;
}

unfoldable pub put_row : Row → Li → Li
put_row row l = record l { odd = row.odd; even = row.even; clicked = row.clicked }

unfoldable pub put_rows : List Row → List Li → List Li
unfolding put_row
put_rows (row ∷ rows) (l ∷ lis) = put_row row l ∷ put_rows rows lis
put_rows _ lis = lis

unfoldable pub rows_of : List Li → List Row
unfolding row_of
rows_of lis = map (row_of lis) lis

-- `highlight` and `setClicked`, on the LIs.
unfoldable pub highlight_lis : List Li → List Li
unfolding rows_of put_rows highlight
highlight_lis lis = put_rows (highlight (rows_of lis)) lis

unfoldable pub click_lis : ℕ → List Li → List Li
unfolding rows_of put_rows set_clicked
click_lis key lis = put_rows (set_clicked (some key) (rows_of lis)) lis

-- `queryAll("#full_list li").filter(isVisible).length`
unfoldable pub visible_count : List Li → ℕ
unfolding rows_of visible_rows
visible_count lis = length (visible_rows (rows_of lis))

unfoldable pub flip_li : ℕ → Li → Li
flip_li key l = if l.key == key then record l { collapsed = not l.collapsed } else l

unfoldable pub open_li : List ℕ → Li → Li
unfolding has_key
open_li keys l = if has_key l.key keys then record l { collapsed = false } else l

-- The keys above an LI.
unfoldable pub above_of : ℕ → List Li → List ℕ
above_of key [] = []
above_of key (l ∷ lis) = let rest = above_of key lis in if l.key == key then l.above else rest

-- The loop of `clearSearch` over the LIs above the one that was clicked.
unfoldable pub reveal_clicked : Option ℕ → List Li → List Li
unfolding open_li above_of
reveal_clicked none lis = lis
reveal_clicked (some key) lis = map (open_li (above_of key lis)) lis

unfoldable pub lose_entry : Entry → Entry
lose_entry e = record e { found = false }

unfoldable pub clear_search : Session → Session
unfolding lose_entry reveal_clicked highlight_lis
clear_search s = record s {
  timeout = none;
  cache = map lose_entry s.cache;
  list_insearch = false;
  content_insearch = false;
  lis = highlight_lis (reveal_clicked s.clicked s.lis);
}

unfoldable pub search_done : Session → Session
unfolding visible_count highlight_lis
search_done s = record s {
  timeout = none;
  lis = highlight_lis s.lis;
  results = results_text (visible_count s.lis);
  results_shown = true;
  content_insearch = false;
}

-- The end of `partialSearch`, with the cache after the batch.
settle_batch : Bytes → Session → List Entry × Option ℕ → Session
settle_batch text s (cache, none) = search_done (record s { cache = cache })
settle_batch text s (cache, some next) = record s { cache = cache; timeout = some (text, next) }

-- A change of the input, a timeout, a click on a toggle, and one on a row.
pub data Event : Type 0 where
  input : Bytes → Event
  time_out : Event
  toggle : ℕ → Event
  click : ℕ → Event

module _ (regexp_test : Bytes → Bool → Bytes → Bool)
    (regexp_strong : Bytes → Bool → Bytes → Bytes) where
  unfoldable pub run_batch : Bytes → ℕ → Session → Session
  unfolding settle_batch search_done
  run_batch text offset s =
      settle_batch text s (partial_search regexp_test regexp_strong text s.cache offset)

  -- `performSearch` before its first batch.
  unfoldable pub begin_search : Session → Session
  begin_search s = record s {
    timeout = none;
    list_insearch = true;
    content_insearch = true;
    results = [];
    results_shown = false;
  }

  unfoldable pub perform_search : Bytes → Session → Session
  unfolding begin_search run_batch
  perform_search text s = run_batch text 0 (begin_search s)

  -- `updateSearchResults`, with the value of the input
  unfoldable pub update_search_results : Bytes → Session → Session
  unfolding perform_search
  update_search_results [] s = clear_search s
  update_search_results (c ∷ text) s = perform_search (c ∷ text) s

  expire : Option (Bytes × ℕ) → Session → Session
  expire none s = s
  expire (some (text, offset)) s = run_batch text offset (record s { timeout = none })

  -- The timeout goes off, if there is one.
  unfoldable pub run_timeout : Session → Session
  unfolding expire
  run_timeout s = expire s.timeout s

  unfoldable pub step : Event → Session → Session
  unfolding update_search_results run_timeout flip_li highlight_lis click_lis
  step (input text) s = update_search_results text s
  step time_out s = run_timeout s
  step (toggle key) s = record s { lis = highlight_lis (map (flip_li key) s.lis) }
  step (click key) s = record s { clicked = some key; lis = click_lis key s.lis }

  unfoldable pub run : List Event → Session → Session
  unfolding step
  run [] s = s
  run (e ∷ events) s = run events (step e s)
