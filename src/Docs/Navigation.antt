-- ===== src/Docs/Navigation.antt =====
-- The navigation of docs/js/app.js: `completeNavigation`, `navigateTo`, and the listener of
-- messages. What `window.__app` and the frames do with a call is told by the list of calls.
pub mod Dropped
pub mod Latest
pub mod Shows
use oauth.Prelude.{
  ℕ, zero, suc, ◌+◌, List, [], ◌∷◌, ◌++◌, Bool, true, false, ◌&&◌, Option, none, some, Bytes,
  bytes_eq, ◌==◌, if◌then◌else◌, drop,
}
use oauth.Docs.Loading.{Loading, schedule_main_loading, cancel_main_loading, fire}
use oauth.Docs.Page.{
  Url, Browser, Page, NavigationOptions, Pending, Call, App, call, has_id, decoded_or, hash_target,
  scroll_to_target, focus_hash_target, reset_main_scroll, scroll_after, same_document_url,
  keep_class, over_old, next_page, both_mains, update_page_state, rehydrate, expand_nav,
  scroll_into_view, scroll_to_top, push_state, set_location,
}

-- `if (options.syncNav && typeof pathId !== "undefined") expandNavPath(pathId)`
unfoldable pub sync : Bool → Option Bytes → App → App
unfolding call
sync true (some path_id) app = call (expand_nav path_id) app
sync _ _ app = app

unfoldable pub push : Bool → Bytes → App → App
unfolding call
push true href app = record (call (push_state app.page.title href) app) { location = href }
push false href app = app

-- `completeNavigation` behind `updatePageState`.
unfoldable pub show_page : Browser → Url → NavigationOptions → App → App
unfolding call sync scroll_after push
show_page browser target options app =
    let called = call rehydrate app in
    let synced = sync options.sync_nav called.page.path_id called in
    let pushed = push options.push_history target.href (scroll_after browser target.hash synced) in
    record pushed { current_url = target.href }

complete_with : Browser → Url → NavigationOptions → App × Bool → App × Bool
complete_with browser target options (app, false) = (app, false)
complete_with browser target options (app, true) = (show_page browser target options app, true)

complete_at : Browser → NavigationOptions → Page → App → Option Url → Option (App × Bool)
complete_at browser options new app none = none
complete_at browser options new app (some target) =
    some (complete_with browser target options (update_page_state new app))

-- `completeNavigation`; `none` where it throws.
unfoldable pub complete_navigation :
    Browser → Bytes → NavigationOptions → Page → App → Option (App × Bool)
unfolding complete_at complete_with
complete_navigation browser url options new app =
    complete_at browser options new app (browser.new_url url app.location)

-- The branch of `navigateTo` within a document.
unfoldable pub navigate_within : Browser → Url → NavigationOptions → App → App
unfolding push scroll_after
navigate_within browser target options app =
    scroll_after browser target.hash
      (record (push options.push_history target.href app) { current_url = target.href })

-- The branch of `navigateTo` that loads another page in the frame.
unfoldable pub load_page : Browser → Url → NavigationOptions → App → App
load_page browser target options app = record app {
  loading = schedule_main_loading app.latest_navigation_id app.loading;
  onload = some (record {
    navigation_id = app.latest_navigation_id;
    resolved_url = target.href;
    options = options;
  });
  loader_src = some (browser.without_hash target);
}

-- `none` where `new URL` throws, which ends the call. An address that has been resolved is the same
-- when it is resolved again.
navigate_from : Browser → NavigationOptions → App → Option Url → Option Url → App
navigate_from browser options app current none = app
navigate_from browser options app none (some target) = app
navigate_from browser options app (some current) (some target) =
    if same_document_url current target
    then navigate_within browser target options app
    else load_page browser target options app

unfoldable pub next_navigation : App → App
next_navigation app = record app { latest_navigation_id = suc app.latest_navigation_id }

unfoldable pub navigate_to : Browser → Bytes → NavigationOptions → App → App
unfolding navigate_from next_navigation
navigate_to browser url options app =
    navigate_from browser options (next_navigation app)
      (browser.new_url app.current_url app.location) (browser.new_url url app.location)

-- `finally`, after a load that was completed or not.
unfoldable pub finish_load : ℕ → Bool → App → App
finish_load navigation_id completed app =
    let ended =
      if navigation_id == app.latest_navigation_id
      then record app { loading = cancel_main_loading app.loading }
      else app in
    if completed then record ended { onload = none; loader_src = none } else ended

-- `try` and `catch`: a page that cannot be read, or an exception, sends the window to the address.
unfoldable pub settle : Pending → Option (App × Bool) → App → App
unfolding call finish_load
settle pending none app =
    finish_load pending.navigation_id false (call (set_location pending.resolved_url) app)
settle pending (some (done, completed)) app = finish_load pending.navigation_id completed done

read_page : Browser → Pending → Option Page → App → Option (App × Bool)
read_page browser pending none app = none
read_page browser pending (some new) app =
    complete_navigation browser pending.resolved_url pending.options new app

handle : Browser → Option Page → App → Option Pending → App
handle browser new app none = app
handle browser new app (some pending) =
    if pending.navigation_id == app.latest_navigation_id
    then settle pending (read_page browser pending new app) app
    else app

-- `loader.onload`, with the page in the frame, `none` where it cannot be read.
unfoldable pub load : Browser → Option Page → App → App
unfolding handle read_page
load browser new app = handle browser new app app.onload

-- What happens to the page: a message of a list or `popstate`, a load of the frame, a timer, and a
-- change of the address by the browser.
pub data Event : Type 0 where
  navigate : Bytes → NavigationOptions → Event
  loaded : Option Page → Event
  timer : ℕ → ℕ → Event
  moved : Bytes → Event

unfoldable pub step : Browser → Event → App → App
step browser (navigate url options) app = navigate_to browser url options app
step browser (loaded new) app = load browser new app
step browser (timer now id) app = record app {
  loading = fire app.latest_navigation_id now id app.loading;
}
step browser (moved location) app = record app { location = location }
