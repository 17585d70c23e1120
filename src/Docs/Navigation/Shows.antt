-- ===== src/Docs/Navigation/Shows.antt =====
-- What a load changes: the page and the address shown, and not the count of navigations.
use oauth.Prelude.{
  ◌≡◌, refl, ◌∙◌, ◌⊎◌, inl, inr, [], ◌∷◌, Bool, true, false, Option, none, some, Bool-cases, Bytes,
}
use mathlib.Core.Option.{some-injective}
use mathlib.Core.Path.{subst}
use oauth.Docs.Page.{
  Url, Browser, Page, NavigationOptions, rehydrate, App, call, focus_hash_target, scroll_to_target,
  hash_target, reset_main_scroll, scroll_after, both_mains, update_page_state,
}
use oauth.Docs.Navigation.{
  sync, push, show_page, complete_with, complete_at, complete_navigation, navigate_within,
}

-- The pending load and the loading indicator are left alone, and the count of navigations.
abbrev pub Stays : App → App → Type 0
Stays app app' =
    (app'.latest_navigation_id ≡ app.latest_navigation_id)
    × (app'.onload ≡ app.onload)
    × (app'.loading ≡ app.loading)

pub Stays-trans : (a b c : App) → Stays a b → Stays b c → Stays a c
Stays-trans a b c (h, k, l) (h', k', l') = (h' ∙ h, k' ∙ k, l' ∙ l)

scroll_to_target-Stays :
    (target : Option Bytes) (app : App) → Stays app (scroll_to_target target app).0
unfolding scroll_to_target call
scroll_to_target-Stays none app = (refl, refl, refl)
scroll_to_target-Stays (some id) app = (refl, refl, refl)

scroll_after-Stays :
    (browser : Browser) (hash : Bytes) (app : App) → Stays app (scroll_after browser hash app)
unfolding scroll_after focus_hash_target reset_main_scroll call
scroll_after-Stays browser [] app = (refl, refl, refl)
scroll_after-Stays browser (c ∷ hash) app =
    scroll_to_target-Stays (hash_target browser (c ∷ hash) app.page.ids) app

sync-Stays : (b : Bool) (path_id : Option Bytes) (app : App) → Stays app (sync b path_id app)
unfolding sync call
sync-Stays true (some path_id) app = (refl, refl, refl)
sync-Stays true none app = (refl, refl, refl)
sync-Stays false path_id app = (refl, refl, refl)

push-Stays : (b : Bool) (href : Bytes) (app : App) → Stays app (push b href app)
unfolding push call
push-Stays true href app = (refl, refl, refl)
push-Stays false href app = (refl, refl, refl)

show_page-Stays :
    (browser : Browser) (target : Url) (options : NavigationOptions) (app : App)
    → Stays app (show_page browser target options app)
      × ((show_page browser target options app).current_url ≡ target.href)
unfolding show_page call
show_page-Stays browser target options app =
    let called = call rehydrate app in
    let synced = sync options.sync_nav called.page.path_id called in
    let scrolled = scroll_after browser target.hash synced in
    let pushed = push options.push_history target.href scrolled in
    (
      Stays-trans called synced pushed (sync-Stays options.sync_nav called.page.path_id called) (
          Stays-trans synced scrolled pushed (scroll_after-Stays browser target.hash synced)
            (push-Stays options.push_history target.href scrolled)),
      refl,
    )

pub navigate_within-Stays :
    (browser : Browser) (target : Url) (options : NavigationOptions) (app : App)
    → Stays app (navigate_within browser target options app)
unfolding navigate_within
navigate_within-Stays browser target options app =
    let pushed = push options.push_history target.href app in
    let current = record pushed { current_url = target.href } in
    Stays-trans app current (scroll_after browser target.hash current)
      (push-Stays options.push_history target.href app)
      (scroll_after-Stays browser target.hash current)

update_page_state-Stays :
    (new : Page) (app : App)
    → Stays app (update_page_state new app).0
      × ((update_page_state new app).0.current_url ≡ app.current_url)
unfolding update_page_state
update_page_state-Stays new app = elim (Bool-cases (both_mains new.main app.page.main)) [
  | inl e ↦ rw e ((refl, refl, refl), refl)
  | inr e ↦ rw e ((refl, refl, refl), refl)
]

-- The address that is shown is the old one, or that of the load.
abbrev pub Shows : Browser → Bytes → App → App → Type 0
Shows browser url app app' =
    (app'.current_url ≡ app.current_url)
    ⊎ ((target : Url) × (browser.new_url url app.location ≡ some target)
        × (app'.current_url ≡ target.href))

complete_with-Shows :
    (browser : Browser) (target : Url) (options : NavigationOptions) (app old : App) (b : Bool)
    (url : Bytes)
    → browser.new_url url old.location ≡ some target
    → Stays old app × (app.current_url ≡ old.current_url)
    → Stays old (complete_with browser target options (app, b)).0
      × Shows browser url old (complete_with browser target options (app, b)).0
unfolding complete_with
complete_with-Shows browser target options app old false url is_target (stays, same) =
    (stays, inl same)
complete_with-Shows browser target options app old true url is_target (stays, same) =
    let (kept, shown) = show_page-Stays browser target options app in
    (
      Stays-trans old app (show_page browser target options app) stays kept,
      inr (target, is_target, shown),
    )

complete_at-Shows :
    (browser : Browser) (options : NavigationOptions) (new : Page) (app : App) (url : Bytes)
    (target : Option Url) {r : App × Bool}
    → browser.new_url url app.location ≡ target
    → complete_at browser options new app target ≡ some r
    → Stays app r.0 × Shows browser url app r.0
unfolding complete_at
complete_at-Shows browser options new app url none is_target e = absurd (cc)
complete_at-Shows browser options new app url (some target) {r} is_target e =
    subst (λ x. Stays app x.0 × Shows browser url app x.0) (some-injective _ r e)
      (complete_with-Shows browser target options (update_page_state new app).0 app
        (update_page_state new app).1 url is_target (update_page_state-Stays new app))

pub complete_navigation-Shows :
    (browser : Browser) (url : Bytes) (options : NavigationOptions) (new : Page) (app : App)
    {r : App × Bool}
    → complete_navigation browser url options new app ≡ some r
    → Stays app r.0 × Shows browser url app r.0
unfolding complete_navigation
complete_navigation-Shows browser url options new app e =
    complete_at-Shows browser options new app url (browser.new_url url app.location) refl e
