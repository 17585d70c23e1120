-- ===== src/Docs/Setup.antt =====
-- `window.__app` of docs/js/app.js with the listeners that it and the script bind, over the pages
-- that are shown: `navResizer`, `navExpander`, `searchFrameButtons`, `navigationChange` and the
-- listener of messages. The functions of other modules that it calls are told by a list.
pub mod Events
pub mod Counts
pub mod Called
pub mod Posted
pub mod Bound
pub mod Expanding
pub mod Expander
use oauth.Prelude.{
  ℕ, zero, suc, List, [], ◌∷◌, ◌++◌, Bool, true, false, Option, none, some, Bytes, ◌==◌,
  if◌then◌else◌, map,
}
use oauth.Docs.Resizer.{Resizer, restore_width}

-- The listeners of `window`: messages that ask for a page, messages of the Escape key, and the others.
pub data WindowListener : Type 0 where
  message_navigate : WindowListener
  message_escape : WindowListener
  resize : WindowListener
  popstate : WindowListener

pub data PointerListener : Type 0 where
  pointer_down : PointerListener
  pointer_up : PointerListener
  pointer_moved : PointerListener

-- A `.full_list_link`, with `dataset.yardSearchFrameBound` and the number of its click listeners.
pub record Link : Type 0 where
  pub bound : Bool
  pub click_listeners : ℕ

-- The functions that `__app` calls for the main element of the page.
pub data Part : Type 0 where
  source_links : Part
  define_links : Part
  full_tree_links : Part
  link_summaries : Part
  summary_toggles : Part
  constant_summary_toggles : Part
  table_of_contents : Part
  main_focus : Part

pub record Setup : Type 0 where
  pub navigation_listener_bound : Bool
  pub navigation_change_bound : Bool
  pub nav_resizer_bound : Bool
  pub search_frame_globals_bound : Bool
  pub nav_expander_timer : Option ℕ
  pub nav_expander_token : ℕ
  pub window_listeners : List WindowListener
  pub links : List Link
  -- #resizer, if the page has it
  pub resizer : Option Resizer
  pub resizer_listeners : List PointerListener
  -- whether the page has #nav, and what listens to its load, by the token captured
  pub has_frame : Bool
  pub frame_listeners : List ℕ
  -- the pending timers, by number, with the token captured
  pub timers : List (ℕ × ℕ)
  pub next_timer : ℕ
  -- undefined, null or a path
  pub path_id : Option (Option Bytes)
  pub posted : List Bytes
  pub parts : List Part
  -- `document.readyState === "loading"`, and the callbacks that wait for its end
  pub loading : Bool
  pub waiting : List Bool

-- What is listening, after a binding that its flag guards.
unfoldable pub bind_once : {A : Type 0} → Bool → List A → List A → List A
bind_once true new listeners = listeners
bind_once false new listeners = listeners ++ new

resize_with : Option Resizer → Setup → Setup
unfolding bind_once
resize_with none s = s
resize_with (some r) s = record s {
  resizer = some (restore_width r);
  resizer_listeners =
      bind_once s.nav_resizer_bound (pointer_down ∷ pointer_up ∷ pointer_moved ∷ [])
        s.resizer_listeners;
  nav_resizer_bound = true;
}

unfoldable pub nav_resizer : Setup → Setup
unfolding resize_with
nav_resizer s = resize_with s.resizer s

-- `clearTimeout`
unfoldable pub clear_timer : Option ℕ → List (ℕ × ℕ) → List (ℕ × ℕ)
clear_timer none timers = timers
clear_timer (some id) [] = []
clear_timer (some id) ((other, token) ∷ timers) =
    let rest = clear_timer (some id) timers in if other == id then rest else (other, token) ∷ rest

listen_load : Bool → ℕ → List ℕ → List ℕ
listen_load true token listeners = listeners ++ token ∷ []
listen_load false token listeners = listeners

-- `navExpander` behind its guards.
unfoldable pub start_expander : Setup → Setup
unfolding listen_load clear_timer
start_expander s = record s {
  nav_expander_token = suc s.nav_expander_token;
  frame_listeners = listen_load s.has_frame (suc s.nav_expander_token) s.frame_listeners;
  timers =
      clear_timer s.nav_expander_timer s.timers ++ (s.next_timer, suc s.nav_expander_token) ∷ [];
  nav_expander_timer = some s.next_timer;
  next_timer = suc s.next_timer;
}

expand_with : Bool → Option (Option Bytes) → Setup → Setup
expand_with true (some path_id) s = start_expander s
expand_with _ _ s = s

unfoldable pub nav_expander : Bool → Setup → Setup
unfolding expand_with
nav_expander enabled s = expand_with enabled s.path_id s

unfoldable pub bind_link : Link → Link
bind_link l =
    if l.bound then l else record { bound = true; click_listeners = suc l.click_listeners }

unfoldable pub search_frame_buttons : Setup → Setup
unfolding bind_link bind_once
search_frame_buttons s = record s {
  links = map bind_link s.links;
  window_listeners =
      bind_once s.search_frame_globals_bound (message_escape ∷ resize ∷ []) s.window_listeners;
  search_frame_globals_bound = true;
}

unfoldable pub navigation_change : Setup → Setup
unfolding bind_once
navigation_change s = record s {
  window_listeners = bind_once s.navigation_change_bound (popstate ∷ []) s.window_listeners;
  navigation_change_bound = true;
}

unfoldable pub call_parts : List Part → Setup → Setup
call_parts parts s = record s { parts = s.parts ++ parts }

-- The callback that `__app` gives to `ready`.
unfoldable pub set_up : Bool → Setup → Setup
unfolding nav_resizer nav_expander call_parts search_frame_buttons navigation_change
set_up rehydrate_nav s =
    let outer = nav_expander rehydrate_nav (nav_resizer s) in
    let linked = call_parts (source_links ∷ define_links ∷ full_tree_links ∷ []) outer in
    let framed = search_frame_buttons linked in
    let rest =
      link_summaries ∷ summary_toggles ∷ constant_summary_toggles ∷ table_of_contents ∷ main_focus
      ∷ [] in
    navigation_change (call_parts rest framed)

-- `ready`, of that callback
call_ready : Bool → Bool → Setup → Setup
call_ready true rehydrate_nav s = record s { waiting = s.waiting ++ rehydrate_nav ∷ [] }
call_ready false rehydrate_nav s = set_up rehydrate_nav s

-- `window.__app`
unfoldable pub app : Bool → Setup → Setup
unfolding call_ready set_up
app rehydrate_nav s = call_ready s.loading rehydrate_nav s
