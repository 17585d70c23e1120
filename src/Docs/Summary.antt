-- ===== src/Docs/Summary.antt =====
-- The summaries of docs/js/app.js: `toggleSummaryCollection` and `summaryToggle`. A toggle is
-- modelled with the lists that follow its container; what a compact copy holds is left out here.
pub mod Reload
pub mod Nodes
pub mod Both
pub mod Shortened
use oauth.Prelude.{
  ℕ, List, [], ◌∷◌, Bool, true, false, not, Option, none, some, Bytes, codes, bytes_eq,
  if◌then◌else◌, map, get_elem?,
}

-- The lists that `firstNextMatchingSibling` finds, with what `isVisible` says of them: none, a full
-- one, or a compact copy before it.
pub data Lists : Type 0 where
  no_list : Lists
  full_only : Bool → Lists
  compact_and_full : Bool → Bool → Lists

pub record Toggle : Type 0 where
  pub text_content : Bytes
  pub lists : Lists

-- The toggles of the page, and `localStorage.summaryCollapsed`.
pub record Summaries : Type 0 where
  pub toggles : List Toggle
  pub summary_collapsed : Option Bytes

unfoldable pub next_text : Bytes → Bytes
unfolding bytes_eq
next_text text = if bytes_eq text (codes "collapse") then codes "expand" else codes "collapse"

-- The copy is visible like the list that it is made from, which is hidden then.
unfoldable pub next_lists : Lists → Lists
next_lists no_list = no_list
next_lists (full_only shown) = compact_and_full shown false
next_lists (compact_and_full compact full) = compact_and_full (not compact) (not full)

-- The loop over all toggles.
unfoldable pub flip_toggle : Toggle → Toggle
unfolding next_text next_lists
flip_toggle t = record { text_content = next_text t.text_content; lists = next_lists t.lists }

click_found : Option Toggle → Summaries → Summaries
click_found none s = s
click_found (some t) s = record {
  toggles = map flip_toggle s.toggles;
  summary_collapsed = some t.text_content;
}

-- A click on the toggle at an index.
unfoldable pub click_toggle : ℕ → Summaries → Summaries
unfolding click_found flip_toggle
click_toggle i s = click_found (get_elem? s.toggles i) s

unfoldable pub is_collapse : Option Bytes → Bool
unfolding bytes_eq
is_collapse none = false
is_collapse (some text) = bytes_eq text (codes "collapse")

-- `summaryToggle`, and `constantSummaryToggle` for the constants
unfoldable pub summary_toggle : Summaries → Summaries
unfolding is_collapse
summary_toggle s =
    if is_collapse s.summary_collapsed
    then click_toggle 0 s
    else record s { summary_collapsed = some (codes "expand") }

-- The listener of `linkSummaries`: the address after a click on a signature, with the `href` of its
-- first link; a click on a link is left to the browser.
unfoldable pub click_signature : Bool → Option Bytes → Bytes → Bytes
click_signature true link location = location
click_signature false none location = location
click_signature false (some href) location = href
