-- ===== src/Docs/Navigation/Latest.antt =====
-- A page that is shown is the one that was asked for last.
use oauth.Prelude.{
  ℕ, suc, ◌≤◌, ◌≡◌, refl, sym, ap, ◌⊎◌, inl, inr, Bool, true, false, Option, none, some, Bool-cases,
  Bytes, ◌==◌, ==_iff, arith,
}
use mathlib.Core.Option.{some-injective}
use mathlib.Core.Path.{subst}
use oauth.Docs.Loading.Timers.{WellTimed}
use oauth.Docs.Loading.Invariant.{
  schedule_main_loading-WellTimed, cancel_main_loading-WellTimed, fire-WellTimed,
}
use oauth.Docs.Navigation.Shows.{Stays, Shows, complete_navigation-Shows, navigate_within-Stays}
use oauth.Docs.Page.{
  Url, Browser, Page, NavigationOptions, Pending, set_location, App, call, same_document_url,
}
use oauth.Docs.Navigation.{
  navigate_within, load_page, navigate_from, next_navigation, navigate_to, finish_load, settle,
  read_page, handle, load, Event, navigate, loaded, timer, moved, step,
}

-- The address that a call of `navigateTo` resolves, if it does.
unfoldable pub asked_for : Option Url → Option Bytes
asked_for none = none
asked_for (some target) = some target.href

-- The address that was asked for last, after an event.
unfoldable pub last_asked : Browser → Event → App → Option Bytes → Option Bytes
unfolding asked_for
last_asked browser (navigate url options) app asked = asked_for (browser.new_url url app.location)
last_asked browser (loaded new) app asked = asked
last_asked browser (timer now id) app asked = asked
last_asked browser (moved location) app asked = asked

-- A pending load is no later than the latest navigation, and if it is the latest, its address is the
-- one that was asked for last.
abbrev pub PendingLatest : ℕ → Option Pending → Option Bytes → Type 0
PendingLatest latest onload asked =
    (p : Pending)
    → onload ≡ some p
    → (p.navigation_id ≤ latest) × (p.navigation_id ≡ latest → asked ≡ some p.resolved_url)

abbrev pub Current : App → Option Bytes → Type 0
Current app asked = PendingLatest app.latest_navigation_id app.onload asked × WellTimed app.loading

Stays-Current :
    (app app' : App) (asked : Option Bytes)
    → Stays app app'
    → Current app asked
    → Current app' asked
Stays-Current app app' asked (n, o, l) h = rw (n, o, l) h

-- Between two navigations, an older load is out of date, whatever is asked for.
older :
    (latest : ℕ) (onload : Option Pending) (asked asked' : Option Bytes)
    → PendingLatest latest onload asked
    → PendingLatest (suc latest) onload asked'
older latest onload asked asked' h p e =
    (omega (arith, (h p e).0), λ now. absurd (omega (arith, (h p e).0)))

load_page-Current :
    (browser : Browser) (target : Url) (options : NavigationOptions) (app : App)
    → WellTimed app.loading
    → Current (load_page browser target options app) (some target.href)
unfolding load_page
load_page-Current browser target options app h = (
  λ p e.
      let same = some-injective _ p e in
      (rw (← same) (omega arith), λ _. ap (λ q. some q.resolved_url) same),
  schedule_main_loading-WellTimed app.latest_navigation_id app.loading h,
)

navigate_from-Current :
    (browser : Browser) (options : NavigationOptions) (app : App) (current target : Option Url)
    → ((asked : Option Bytes) → Current app asked)
    → Current (navigate_from browser options app current target) (asked_for target)
unfolding navigate_from asked_for
navigate_from-Current browser options app current none h = h none
navigate_from-Current browser options app none (some target) h = h (some target.href)
navigate_from-Current browser options app (some current) (some target) h =
    elim (Bool-cases (same_document_url current target)) [
      | inl e ↦ rw e (
          Stays-Current app (navigate_within browser target options app) (some target.href)
            (navigate_within-Stays browser target options app) (h (some target.href)))
      | inr e ↦ rw e (load_page-Current browser target options app (h none).1)
    ]

navigate_to-Current :
    (browser : Browser) (url : Bytes) (options : NavigationOptions) (app : App)
    (asked : Option Bytes)
    → Current app asked
    → Current (navigate_to browser url options app) (asked_for (browser.new_url url app.location))
unfolding navigate_to next_navigation
navigate_to-Current browser url options app asked (h, timed) =
    navigate_from-Current browser options (next_navigation app) _ (browser.new_url url app.location)
      λ asked'. (older app.latest_navigation_id app.onload asked asked' h, timed)

no_pending : (latest : ℕ) (asked : Option Bytes) → PendingLatest latest none asked
no_pending latest asked p e = absurd (cc)

finish_load-Current :
    (id : ℕ) (completed : Bool) (app : App) (asked : Option Bytes)
    → Current app asked
    → Current (finish_load id completed app) asked
      × ((finish_load id completed app).current_url ≡ app.current_url)
unfolding finish_load
finish_load-Current id true app asked (h, timed) =
    elim (Bool-cases (id == app.latest_navigation_id)) [
      | inl e ↦ rw e ((no_pending _ asked, cancel_main_loading-WellTimed app.loading timed), refl)
      | inr e ↦ rw e ((no_pending _ asked, timed), refl)
    ]
finish_load-Current id false app asked (h, timed) =
    elim (Bool-cases (id == app.latest_navigation_id)) [
      | inl e ↦ rw e ((h, cancel_main_loading-WellTimed app.loading timed), refl)
      | inr e ↦ rw e ((h, timed), refl)
    ]

-- What a load that is handled may show.
abbrev pub ShowsAsked : Browser → Option Bytes → App → App → Type 0
ShowsAsked browser asked app app' =
    (app'.current_url ≡ app.current_url)
    ⊎ ((url : Bytes) × (asked ≡ some url)
        × (target : Url) × (browser.new_url url app.location ≡ some target)
        × (app'.current_url ≡ target.href))

Shows-Asked :
    (browser : Browser) (url : Bytes) (asked : Option Bytes) (app app' : App)
    → asked ≡ some url
    → Shows browser url app app'
    → ShowsAsked browser asked app app'
Shows-Asked browser url asked app app' is_asked (inl same) = inl same
Shows-Asked browser url asked app app' is_asked (inr (target, is_target, shown)) =
    inr (url, is_asked, target, is_target, shown)

Settled : Browser → Option Bytes → App → App → Type 0
Settled browser asked app app' = Current app' asked × ShowsAsked browser asked app app'

settle-Settled :
    (browser : Browser) (p : Pending) (result : Option (App × Bool)) (app : App)
    (asked : Option Bytes)
    → Current app asked
    → asked ≡ some p.resolved_url
    → ((r : App × Bool) → result ≡ some r → Stays app r.0 × Shows browser p.resolved_url app r.0)
    → Settled browser asked app (settle p result app)
unfolding settle Settled call
settle-Settled browser p none app asked h is_asked kept =
    let (now, same) =
      finish_load-Current p.navigation_id false (call (set_location p.resolved_url) app) asked h in
    (now, inl same)
settle-Settled browser p (some (done, completed)) app asked h is_asked kept =
    let (stays, shows) = kept (done, completed) refl in
    let (now, same) =
      finish_load-Current p.navigation_id completed done asked
        (Stays-Current app done asked stays h) in
    (
      now,
      subst
          (λ url.
            (url ≡ app.current_url)
            ⊎ ((u : Bytes) × (asked ≡ some u)
                × (target : Url) × (browser.new_url u app.location ≡ some target)
                × (url ≡ target.href)))
          (sym same) (Shows-Asked browser p.resolved_url asked app done is_asked shows),
    )

read_page-Shows :
    (browser : Browser) (p : Pending) (new : Option Page) (app : App) (r : App × Bool)
    → read_page browser p new app ≡ some r
    → Stays app r.0 × Shows browser p.resolved_url app r.0
unfolding read_page
read_page-Shows browser p none app r e = absurd (cc)
read_page-Shows browser p (some new) app r e =
    complete_navigation-Shows browser p.resolved_url p.options new app e

handle-Settled :
    (browser : Browser) (new : Option Page) (app : App) (onload : Option Pending)
    (asked : Option Bytes)
    → app.onload ≡ onload
    → Current app asked
    → Settled browser asked app (handle browser new app onload)
unfolding handle Settled
handle-Settled browser new app none asked e h = (h, inl refl)
handle-Settled browser new app (some p) asked e h =
    elim (Bool-cases (p.navigation_id == app.latest_navigation_id)) [
      | inl now ↦ rw now (
          settle-Settled browser p (read_page browser p new app) app asked h
            ((h.0 p e).1 ((==_iff p.navigation_id app.latest_navigation_id).0 now))
            (read_page-Shows browser p new app))
      | inr late ↦ rw late (h, inl refl)
    ]

-- Where a pending load is no later than the latest navigation, and if it is the latest, is for the
-- address that was asked for last: whatever the frame has loaded, a load leaves the address shown
-- as it is, or shows the address that was asked for last.
pub load-ShowsAsked :
    (browser : Browser) (new : Option Page) (app : App) (asked : Option Bytes)
    → Current app asked
    → ShowsAsked browser asked app (load browser new app)
unfolding load Settled
load-ShowsAsked browser new app asked h = (handle-Settled browser new app app.onload asked refl h).1

-- Every event keeps the invariant: a pending load is no later than the latest navigation, and if
-- it is the latest, is for the address that was asked for last; and the pending timers of the
-- loading indicator are those that `appState` knows.
pub step-Current :
    (browser : Browser) (event : Event) (app : App) (asked : Option Bytes)
    → Current app asked
    → Current (step browser event app) (last_asked browser event app asked)
unfolding step last_asked load Settled
step-Current browser (navigate url options) app asked h =
    navigate_to-Current browser url options app asked h
step-Current browser (loaded new) app asked h =
    (handle-Settled browser new app app.onload asked refl h).0
step-Current browser (timer now id) app asked (h, timed) =
    (h, fire-WellTimed app.latest_navigation_id now id app.loading timed)
step-Current browser (moved location) app asked h = h
