-- ===== src/Docs/Page.antt =====
-- The page of docs/js/app.js that navigation changes: `focusHashTarget`, `resetMainScroll`,
-- `sameDocumentUrl` and `updatePageState`. `URL` and `decodeURIComponent` of the browser are
-- arguments; calls of other parts are told by a list.
use oauth.Prelude.{
  ℕ, List, [], ◌∷◌, ◌++◌, Bool, true, false, ◌&&◌, Option, none, some, Bytes, bytes_eq,
  if◌then◌else◌, drop,
}
use oauth.Docs.Loading.{Loading}

pub record Url : Type 0 where
  pub href : Bytes
  pub origin : Bytes
  pub pathname : Bytes
  pub search : Bytes
  pub hash : Bytes

-- `new URL(url, base)`, `none` where it throws; the address without its hash; `decodeURIComponent`.
pub record Browser : Type 0 where
  pub new_url : Bytes → Bytes → Option Url
  pub without_hash : Url → Bytes
  pub decode_uri_component : Bytes → Option Bytes

-- A page, as loaded in the frame: what stands in its main element, if it has one.
pub record Page : Type 0 where
  pub main : Option Bytes
  pub ids : List Bytes
  pub title : Bytes
  pub class_list_link : Option Bytes
  pub path_id : Option Bytes
  pub relpath : Option Bytes

pub record NavigationOptions : Type 0 where
  pub push_history : Bool
  pub sync_nav : Bool

-- What `loader.onload` has captured.
pub record Pending : Type 0 where
  pub navigation_id : ℕ
  pub resolved_url : Bytes
  pub options : NavigationOptions

-- Calls to other parts of the page and to the browser, in their order.
pub data Call : Type 0 where
  -- `window.__app({ rehydrateNav: false })`
  rehydrate : Call
  expand_nav : Bytes → Call
  scroll_into_view : Bytes → Call
  scroll_to_top : Call
  push_state : Bytes → Bytes → Call
  set_location : Bytes → Call

pub record App : Type 0 where
  pub latest_navigation_id : ℕ
  pub current_url : Bytes
  pub location : Bytes
  pub page : Page
  pub onload : Option Pending
  pub loader_src : Option Bytes
  pub loading : Loading
  pub calls : List Call

unfoldable pub call : Call → App → App
call c app = record app { calls = app.calls ++ c ∷ [] }

-- `document.getElementById`
unfoldable pub has_id : Bytes → List Bytes → Bool
unfolding bytes_eq
has_id id [] = false
has_id id (other ∷ ids) = let rest = has_id id ids in if bytes_eq id other then true else rest

unfoldable pub decoded_or : Bytes → Option Bytes → Bytes
decoded_or id none = id
decoded_or id (some decoded) = decoded

-- The element that a hash names, decoded or as it is.
unfoldable pub hash_target : Browser → Bytes → List Bytes → Option Bytes
unfolding has_id decoded_or
hash_target browser hash ids =
    let id = drop 1 hash in
    let decoded = decoded_or id (browser.decode_uri_component id) in
    if has_id decoded ids then some decoded else if has_id id ids then some id else none

unfoldable pub scroll_to_target : Option Bytes → App → App × Bool
scroll_to_target none app = (app, false)
scroll_to_target (some id) app = (call (scroll_into_view id) app, true)

-- `focusHashTarget`, of a hash
unfoldable pub focus_hash_target : Browser → Bytes → App → App × Bool
unfolding scroll_to_target
focus_hash_target browser [] app = (app, false)
focus_hash_target browser (c ∷ hash) app =
    scroll_to_target (hash_target browser (c ∷ hash) app.page.ids) app

unfoldable pub reset_main_scroll : App → App
unfolding call
reset_main_scroll app = call scroll_to_top app

-- `mainFocus`, of the hash of the address; the focus that follows by a timer is left out.
focus_or_reset : App × Bool → App
unfolding reset_main_scroll
focus_or_reset (app, focused) = if focused then app else reset_main_scroll app

unfoldable pub main_focus : Browser → Bytes → App → App
unfolding focus_or_reset
main_focus browser hash app = focus_or_reset (focus_hash_target browser hash app)

-- `if (hash) focusHashTarget(hash) else resetMainScroll()`
unfoldable pub scroll_after : Browser → Bytes → App → App
unfolding reset_main_scroll
scroll_after browser [] app = reset_main_scroll app
scroll_after browser (c ∷ hash) app = (focus_hash_target browser (c ∷ hash) app).0

unfoldable pub same_document_url : Url → Url → Bool
unfolding bytes_eq
same_document_url left right =
    bytes_eq left.origin right.origin
    && bytes_eq left.pathname right.pathname
    && bytes_eq left.search right.search

-- A link that had a class keeps it, where the new page has the link.
unfoldable pub keep_class : Option Bytes → Option Bytes → Option Bytes
keep_class (some (c ∷ name)) (some new) = some (c ∷ name)
keep_class _ new = new

unfoldable pub over_old : Option Bytes → Option Bytes → Option Bytes
over_old none old = old
over_old (some new) old = some new

-- The branch of `updatePageState` in which both pages have a main element.
unfoldable pub next_page : Page → Page → Page
unfolding keep_class over_old
next_page old new = record {
  main = new.main;
  ids = new.ids;
  title = new.title;
  class_list_link = keep_class old.class_list_link new.class_list_link;
  path_id = over_old new.path_id old.path_id;
  relpath = over_old new.relpath old.relpath;
}

unfoldable pub both_mains : Option Bytes → Option Bytes → Bool
both_mains (some a) (some b) = true
both_mains _ _ = false

unfoldable pub update_page_state : Page → App → App × Bool
unfolding both_mains
update_page_state new app =
    if both_mains new.main app.page.main
    then (record app { page = next_page app.page new }, true)
    else (app, false)
