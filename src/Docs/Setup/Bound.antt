-- ===== src/Docs/Setup/Bound.antt =====
-- How often the listeners of the page are bound.
use oauth.Prelude.{ℕ, ◌≡◌, List, [], ◌∷◌, true, false, Option, none, some, All}
use oauth.Docs.Resizer.{Resizer}
use oauth.Docs.Setup.{WindowListener, PointerListener, Link, Setup}
use oauth.Docs.Setup.Events.{Event, show}
use oauth.Docs.Setup.Counts.{count, all_pointers, Clicked}
use oauth.Docs.Setup.Called.{Flagged, Called}

abbrev Complete : ℕ → Setup → Type 0
Complete clicks s = Flagged clicks true false s × Called clicks s

-- A link has one listener on the first page, and none on a page that is shown by a navigation.
unfoldable pub clicks_after : List Event → ℕ → ℕ
clicks_after [] clicks = clicks
clicks_after (show links path_id sync ∷ events) clicks = clicks_after events 0
clicks_after (e ∷ events) clicks = clicks_after events clicks

abbrev Untouched : Link → Type 0
Untouched l = (l.bound ≡ false) × (l.click_listeners ≡ 0)

-- Nothing has been bound.
abbrev pub Fresh : Setup → Type 0
Fresh s =
    (s.navigation_listener_bound ≡ false)
    × (s.search_frame_globals_bound ≡ false)
    × (s.navigation_change_bound ≡ false)
    × (s.nav_resizer_bound ≡ false)
    × (s.window_listeners ≡ [])
    × (s.resizer_listeners ≡ [])
    × All Untouched s.links

abbrev AllPointers : Option Resizer → List PointerListener → Type 0
AllPointers none listeners = Unit
AllPointers (some r) listeners = listeners ≡ all_pointers

-- Every listener of the window and of the resizer stands once, and every link is marked and has so
-- many.
abbrev pub BoundOnce : ℕ → Setup → Type 0
BoundOnce clicks s =
    ((w : WindowListener) → count w s.window_listeners ≡ 1)
    × All (Clicked clicks) s.links
    × AllPointers s.resizer s.resizer_listeners
