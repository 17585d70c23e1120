-- ===== src/Docs/Setup/Events.antt =====
-- What happens to the page of docs/js/app.js that `window.__app` sets up: the script runs, the document
-- is read, a page is shown, the frame of the list loads, and the timer of `navExpander` goes off.
use oauth.Prelude.{
  ℕ, zero, suc, List, [], ◌∷◌, ◌++◌, Bool, true, false, Option, none, some, Bytes, ◌==◌,
  if◌then◌else◌, map,
}
use oauth.Docs.Setup.{Link, Setup, message_navigate, bind_once, clear_timer, bind_link, set_up, app}

-- The end of the script.
unfoldable pub run_script : Setup → Setup
unfolding app bind_once
run_script s =
    let called = app true s in
    record called {
      window_listeners =
          bind_once called.navigation_listener_bound (message_navigate ∷ [])
            called.window_listeners;
      navigation_listener_bound = true;
    }

unfoldable pub run_waiting : List Bool → Setup → Setup
run_waiting [] s = s
run_waiting (rehydrate_nav ∷ waiting) s = run_waiting waiting (set_up rehydrate_nav s)

-- DOMContentLoaded.
unfoldable pub content_loaded : Setup → Setup
unfolding run_waiting
content_loaded s = run_waiting s.waiting (record s { loading = false; waiting = [] })

-- `expandNavPath`, which posts nothing for null or without the frame.
unfoldable pub expand_nav_path : Option (Option Bytes) → Setup → Setup
expand_nav_path (some (some path)) s =
    if s.has_frame then record s { posted = s.posted ++ path ∷ [] } else s
expand_nav_path _ s = s

-- `postMessage` of `navExpander`, which has captured a token.
unfoldable pub post_message : ℕ → Setup → Setup
unfolding expand_nav_path
post_message token s = if token == s.nav_expander_token then expand_nav_path s.path_id s else s

unfoldable pub post_all : List ℕ → Setup → Setup
unfolding post_message
post_all [] s = s
post_all (token ∷ tokens) s = post_all tokens (post_message token s)

-- The frame has loaded: its listeners are called in turn, each once.
unfoldable pub load_frame : Setup → Setup
unfolding post_all
load_frame s = post_all s.frame_listeners (record s { frame_listeners = [] })

unfoldable pub fire_with : Option ℕ → Setup → Setup
unfolding post_message
fire_with none s = s
fire_with (some token) s = post_message token s

unfoldable pub token_of : ℕ → List (ℕ × ℕ) → Option ℕ
token_of id [] = none
token_of id ((other, token) ∷ timers) =
    let rest = token_of id timers in if other == id then some token else rest

-- A timer goes off, if it is pending.
unfoldable pub fire : ℕ → Setup → Setup
unfolding fire_with token_of clear_timer
fire id s = fire_with (token_of id s.timers) (record s { timers = clear_timer (some id) s.timers })

-- The links of the page that the loader frame has loaded, where the script has run on them already.
unfoldable pub loaded_links : ℕ → List Link
unfolding bind_link
loaded_links zero = []
loaded_links (suc n) = bind_link (record { bound = false; click_listeners = 0 }) ∷ loaded_links n

-- `innerHTML` takes over the attributes of elements, and none of their listeners.
unfoldable pub copy_link : Link → Link
copy_link l = record l { click_listeners = 0 }

unfoldable pub new_links : ℕ → List Link
unfolding copy_link loaded_links
new_links n = map copy_link (loaded_links n)

unfoldable pub over_path : Option (Option Bytes) → Option (Option Bytes) → Option (Option Bytes)
over_path none old = old
over_path (some new) old = some new

unfoldable pub sync_nav : Bool → Setup → Setup
unfolding expand_nav_path
sync_nav true s = expand_nav_path s.path_id s
sync_nav false s = s

-- `completeNavigation`, from the new main element, with a number of links, to the message for the
-- list.
unfoldable pub show_main : ℕ → Option (Option Bytes) → Bool → Setup → Setup
unfolding app new_links over_path sync_nav
show_main links path_id sync s =
    sync_nav sync
      (app false (record s { links = new_links links; path_id = over_path path_id s.path_id }))

-- The script runs (again), the document has been read, a page is shown, the frame has loaded, and a
-- timer goes off.
pub data Event : Type 0 where
  script : Event
  content_read : Event
  show : ℕ → Option (Option Bytes) → Bool → Event
  loaded : Event
  fired : ℕ → Event

unfoldable pub step : Event → Setup → Setup
unfolding run_script content_loaded show_main load_frame fire
step script s = run_script s
step content_read s = content_loaded s
step (show links path_id sync) s = show_main links path_id sync s
step loaded s = load_frame s
step (fired id) s = fire id s

unfoldable pub run : List Event → Setup → Setup
unfolding step
run [] s = s
run (e ∷ events) s = run events (step e s)
