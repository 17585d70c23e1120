-- ===== src/Docs/Start.antt =====
-- The start of docs/js/full_list.js (`ready`, `escapeShortcut`, `enableLinks`, `enableToggles`,
-- `populateSearchCache` and `enableSearch`), its messages, and the scrolling of `expandTo`. Positions
-- are those in the document; the window shows a part of it.
use oauth.Prelude.{
  ℕ, suc, ◌+◌, ◌-◌, ◌≤◌, ◌≡◌, List, [], ◌∷◌, ◌++◌, Bool, true, false, ◌&&◌, Option, none, some,
  Bytes, codes, bytes_eq, leb, ◌==◌, if◌then◌else◌, map, min, arith,
}
use oauth.Docs.Search.{Entry}
use oauth.Docs.Session.{Session, highlight_lis}

-- An `.item` with its classes, and the text and the title of its `.object_link a`, if it has one.
pub record ItemNode : Type 0 where
  pub link : Option (Bytes × Option Bytes)
  pub found : Bool
  pub has_r1 : Bool
  pub has_r2 : Bool

-- `split(" ")[0]`
unfoldable pub first_word : Bytes → Bytes
first_word [] = []
first_word (c ∷ text) = let rest = first_word text in if c == 32 then [] else c ∷ rest

unfoldable pub new_entry : ItemNode → Bytes → Bytes → Entry
unfolding first_word
new_entry node text title = record {
  name = text;
  full_name = first_word title;
  found = node.found;
  has_r1 = node.has_r1;
  has_r2 = node.has_r2;
  inner_html = text;
}

-- The loop of `populateSearchCache`, which a link without a title ends by a TypeError: whether it has
-- come to the end, and the cache.
unfoldable pub populate_search_cache : List ItemNode → List Entry → Bool × List Entry
unfolding new_entry
populate_search_cache [] cache = (true, cache)
populate_search_cache (node ∷ nodes) cache = elim node.link [
  | none ↦ populate_search_cache nodes cache
  | some (text, none) ↦ (false, cache)
  | some (text, some title) ↦ populate_search_cache nodes (cache ++ new_entry node text title ∷ [])
]

-- What listens to an item or a toggle: to clicks, and to keys.
pub record Listeners : Type 0 where
  pub clicks : ℕ
  pub keys : ℕ

pub record ListPage : Type 0 where
  pub session : Session
  pub nodes : List ItemNode
  -- the LIs that have a row, and the toggles
  pub rows : List Listeners
  pub toggles : List Listeners
  pub has_input : Bool
  pub has_full_list : Bool
  pub input_listeners : ℕ
  pub noresults : ℕ
  pub keydown_listeners : ℕ
  -- whether the document is still loading, and how many callbacks wait for its end
  pub loading : Bool
  pub waiting : ℕ

unfoldable pub escape_shortcut : ListPage → ListPage
escape_shortcut p = record p { keydown_listeners = suc p.keydown_listeners }

-- What the listener of `escapeShortcut` posts to the page.
unfoldable pub on_keydown : Bytes → Option Bytes
on_keydown key = if bytes_eq key (codes "Escape") then some (codes "navEscape") else none

unfoldable pub listen_click : Listeners → Listeners
listen_click l = record l { clicks = suc l.clicks }

unfoldable pub enable_links : ListPage → ListPage
unfolding listen_click
enable_links p = record p { rows = map listen_click p.rows }

unfoldable pub listen_both : Listeners → Listeners
listen_both l = record { clicks = suc l.clicks; keys = suc l.keys }

unfoldable pub enable_toggles : ListPage → ListPage
unfolding listen_both
enable_toggles p = record p { toggles = map listen_both p.toggles }

-- Inputs and changes are listened to, and the place of the results is put behind the list.
unfoldable pub enable_search : ListPage → ListPage
enable_search p =
    if p.has_input && p.has_full_list
    then record p { input_listeners = p.input_listeners + 2; noresults = suc p.noresults }
    else p

-- The end of the callback, behind `populateSearchCache`.
unfoldable pub finish_start : ListPage → Bool × List Entry → ListPage
unfolding enable_search highlight_lis
finish_start p (false, cache) = record p { session = record p.session { cache = cache } }
finish_start p (true, cache) =
    let searched = enable_search p in
    record searched {
      session = record p.session { cache = cache; lis = highlight_lis p.session.lis };
    }

-- The callback that the script gives to `ready`.
unfoldable pub start_list : ListPage → ListPage
unfolding escape_shortcut enable_links enable_toggles populate_search_cache finish_start
start_list p =
    let enabled = enable_toggles (enable_links (escape_shortcut p)) in
    finish_start enabled (populate_search_cache enabled.nodes enabled.session.cache)

-- `ready`, of that callback
unfoldable pub ready_list : ListPage → ListPage
unfolding start_list
ready_list p = if p.loading then record p { waiting = suc p.waiting } else start_list p

-- `windowEvents`: the path that `expandTo` is called with.
unfoldable pub window_events : Bytes → Bytes → Option Bytes
window_events action path = if bytes_eq action (codes "expand") then some path else none

-- What the window shows, and how far down it can be scrolled.
pub record View : Type 0 where
  pub x : ℕ
  pub y : ℕ
  pub height : ℕ
  pub max_y : ℕ

pub record Place : Type 0 where
  pub left : ℕ
  pub top : ℕ
  pub bottom : ℕ

-- `isInView`: `rect.left >= 0 && rect.bottom <= windowHeight`
unfoldable pub is_in_view : View → Place → Bool
is_in_view v e = leb v.x e.left && leb e.bottom (v.y + v.height)

-- `window.scrollTo`, where `expandTo` calls it; no window is scrolled above the document or too far.
unfoldable pub scroll_expanded : View → Place → View
unfolding is_in_view
scroll_expanded v e = if is_in_view v e then v else record v { y = min v.max_y (e.top - 250) }

-- A target that lies below what is shown is shown as a whole afterwards, if it lies in the document
-- and is 250 pixels less high than the window.
pub scroll_expanded-below :
    (v : View) (e : Place)
    → is_in_view v e ≡ false
    → e.top ≤ e.bottom
    → (e.bottom - e.top) + 250 ≤ v.height
    → e.bottom ≤ v.max_y + v.height
    → ((scroll_expanded v e).y ≤ e.top)
      × (e.bottom ≤ (scroll_expanded v e).y + (scroll_expanded v e).height)
unfolding scroll_expanded
scroll_expanded-below v e outside ordered small within = rw outside (omega arith, omega arith)
