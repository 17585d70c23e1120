-- ===== src/Docs/Navigation/Dropped.antt =====
-- A load that is pending when a navigation stays within the page.
use oauth.Prelude.{ℕ, suc, ◌≤◌, ◌≡◌, refl, true, false, Option, none, some, Bytes, ◌==◌, arith}
use oauth.Docs.Page.{Url, Browser, Page, NavigationOptions, Pending, App, same_document_url}
use oauth.Docs.Navigation.{
  navigate_within, navigate_from, next_navigation, navigate_to, handle, load,
}
use oauth.Docs.Navigation.Shows.{navigate_within-Stays}
use oauth.Docs.Navigation.Latest.{Current, PendingLatest}

stale : (a b : ℕ) → a ≤ b → (a == suc b) ≡ false
stale a b h = ground arith

handle-stale :
    (browser : Browser) (new : Option Page) (app : App) (onload : Option Pending)
    (asked : Option Bytes) (latest : ℕ)
    → PendingLatest latest onload asked
    → app.latest_navigation_id ≡ suc latest
    → handle browser new app onload ≡ app
unfolding handle
handle-stale browser new app none asked latest h e = refl
handle-stale browser new app (some p) asked latest h e =
    rw (e, stale p.navigation_id latest (h p refl).0) refl

-- In a state of the invariant, a navigation within the page makes the load of another page,
-- pending before it, do nothing at all: neither is that page shown, nor is the loading indicator
-- ended.
pub load-navigate_within :
    (browser : Browser) (new : Option Page) (url : Bytes) (options : NavigationOptions) (app : App)
    (asked : Option Bytes) (current target : Url)
    → Current app asked
    → browser.new_url app.current_url app.location ≡ some current
    → browser.new_url url app.location ≡ some target
    → same_document_url current target ≡ true
    → (load browser new (navigate_to browser url options app) ≡ navigate_to browser url options app)
      × ((navigate_to browser url options app).loading ≡ app.loading)
unfolding load navigate_to navigate_from next_navigation
load-navigate_within browser new url options app asked current target h is_current is_target
      within =
    let next = next_navigation app in
    let (n, o, l) = navigate_within-Stays browser target options next in
    rw (is_current, is_target, within)
      (
        handle-stale browser new (navigate_within browser target options next) _ asked
            app.latest_navigation_id (rw o h.0) n,
        l,
      )
