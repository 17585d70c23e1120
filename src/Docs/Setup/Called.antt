-- ===== src/Docs/Setup/Called.antt =====
-- What the callback of `window.__app` binds.
use oauth.Prelude.{
  ℕ, ◌≡◌, refl, sym, ◌⊎◌, ◌≢◌, inl, inr, List, [], ◌∷◌, Bool, true, false, Option, none, some, All,
  Bytes, map,
}
use mathlib.Core.Path.{subst}
use oauth.Docs.Resizer.{Resizer}
use oauth.Docs.Setup.{
  Setup, resize_with, nav_resizer, expand_with, nav_expander, start_expander, bind_link,
  search_frame_buttons, navigation_change, call_parts, set_up,
}
use oauth.Docs.Setup.Events.{run_waiting}
use oauth.Docs.Setup.Counts.{
  Windows, bind_frame, bind_change, LinkFits, Pointers, bind_once-all, Clicked, bind_links,
  Clicked-fits,
}

-- Every listener has been added as often as its flag says.
abbrev pub Flagged : ℕ → Bool → Bool → Setup → Type 0
Flagged clicks navigation loading s =
    (s.navigation_listener_bound ≡ navigation)
    × (s.loading ≡ loading)
    × Windows s.navigation_listener_bound s.search_frame_globals_bound s.navigation_change_bound
        s.window_listeners
    × All (LinkFits clicks) s.links
    × Pointers s.nav_resizer_bound s.resizer_listeners

abbrev pub Resizable : Option Resizer → Bool → Type 0
Resizable none bound = Unit
Resizable (some r) bound = bound ≡ true

-- What has been bound when the callback of `__app` has run.
abbrev pub Called : ℕ → Setup → Type 0
Called clicks s =
    (s.search_frame_globals_bound ≡ true)
    × (s.navigation_change_bound ≡ true)
    × All (Clicked clicks) s.links
    × Resizable s.resizer s.nav_resizer_bound

module _ (clicks : ℕ) (navigation loading : Bool) where
  resize_with-Flagged :
      (r : Option Resizer) (s : Setup)
      → s.resizer ≡ r
      → Flagged clicks navigation loading s
      → Flagged clicks navigation loading (resize_with r s)
        × Resizable (resize_with r s).resizer (resize_with r s).nav_resizer_bound
  unfolding resize_with
  resize_with-Flagged none s e h = (h, subst (λ r. Resizable r s.nav_resizer_bound) (sym e) tt)
  resize_with-Flagged (some r) s e (n, l, windows, links, pointers) =
      ((n, l, windows, links, bind_once-all s.nav_resizer_bound s.resizer_listeners pointers), refl)

  expand_with-Flagged :
      (enabled : Bool) (path_id : Option (Option Bytes)) (s : Setup)
      → Flagged clicks navigation loading s
      → Resizable s.resizer s.nav_resizer_bound
      → Flagged clicks navigation loading (expand_with enabled path_id s)
        × Resizable
            (expand_with enabled path_id s).resizer
            (expand_with enabled path_id s).nav_resizer_bound
  unfolding expand_with start_expander
  expand_with-Flagged true (some path) s h r = (h, r)
  expand_with-Flagged true none s h r = (h, r)
  expand_with-Flagged false path_id s h r = (h, r)

  pub set_up-Flagged :
      (rehydrate_nav : Bool) (s : Setup)
      → Flagged clicks navigation loading s
      → Flagged clicks navigation loading (set_up rehydrate_nav s)
        × Called clicks (set_up rehydrate_nav s)
  unfolding set_up nav_resizer nav_expander call_parts search_frame_buttons navigation_change
  set_up-Flagged rehydrate_nav s h =
      let (resized, sized) = resize_with-Flagged s.resizer s refl h in
      let ((n, l, windows, links, pointers), fit) =
        expand_with-Flagged rehydrate_nav (nav_resizer s).path_id (nav_resizer s) resized sized in
      let outer = nav_expander rehydrate_nav (nav_resizer s) in
      let clicked = bind_links clicks outer.links links in
      let nav = outer.navigation_listener_bound in
      let frame = outer.search_frame_globals_bound in
      let change = outer.navigation_change_bound in
      let framed = bind_frame nav frame change outer.window_listeners windows in
      (
        (
          n,
          l,
          bind_change nav true change _ framed,
          Clicked-fits clicks (map bind_link outer.links) clicked,
          pointers,
        ),
        (refl, refl, clicked, fit),
      )

module _ (clicks : ℕ) (navigation : Bool) where
  pub run_waiting-Flagged :
      (waiting : List Bool) (s : Setup)
      → Flagged clicks navigation false s
      → Called clicks s ⊎ (waiting ≢ [])
      → Flagged clicks navigation false (run_waiting waiting s)
        × Called clicks (run_waiting waiting s)
  unfolding run_waiting
  run_waiting-Flagged [] s h (inl called) = (h, called)
  run_waiting-Flagged [] s h (inr some_wait) = absurd (some_wait refl)
  run_waiting-Flagged (rehydrate_nav ∷ waiting) s h or =
      let (flagged, called) = set_up-Flagged clicks navigation false rehydrate_nav s h in
      run_waiting-Flagged waiting (set_up rehydrate_nav s) flagged (inl called)
