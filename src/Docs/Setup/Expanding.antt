-- ===== src/Docs/Setup/Expanding.antt =====
-- Who waits to post a message for `navExpander` of docs/js/app.js.
use oauth.Prelude.{
  ℕ, suc, ◌<◌, ◌≡◌, refl, sym, ap, ◌⊎◌, inl, inr, List, [], ◌∷◌, ◌++◌, Bool, true, false, Option,
  none, some, ◌==◌, All, All-append, Bytes, arith, Bool-cases,
}
use mathlib.Core.Path.{subst}
use oauth.Docs.Resizer.{Resizer}
use oauth.Docs.Setup.{
  Setup, resize_with, nav_resizer, clear_timer, listen_load, expand_with, nav_expander,
  start_expander, search_frame_buttons, navigation_change, call_parts, set_up, call_ready, app,
}
use oauth.Docs.Setup.Events.{
  run_script, run_waiting, content_loaded, load_frame, fire_with, fire, token_of, sync_nav,
  show_main, Event, script, content_read, show, loaded, fired, step, run,
}
use oauth.Docs.Setup.Posted.{expand_nav_path-posted, post_message-posted, post_all-posted}

-- No callback behind the latest one listens for the load, and that one once at most.
abbrev pub Listening : ℕ → List ℕ → Type 0
Listening token listeners =
    (older : List ℕ) × All (λ t. t < token) older
    × ((listeners ≡ older) ⊎ (listeners ≡ older ++ token ∷ []))

-- One timer is pending at most, with the latest token, and it is the one to clear.
abbrev pub Pending : Option ℕ → ℕ → List (ℕ × ℕ) → Type 0
Pending timer token timers =
    (timers ≡ []) ⊎ ((id : ℕ) × (timer ≡ some id) × (timers ≡ (id, token) ∷ []))

abbrev Expanding : Setup → Type 0
Expanding s =
    Listening s.nav_expander_token s.frame_listeners
    × Pending s.nav_expander_timer s.nav_expander_token s.timers

All-suc : (token : ℕ) (ts : List ℕ) → All (λ t. t < token) ts → All (λ t. t < suc token) ts
All-suc token [] h = tt
All-suc token (t ∷ ts) (h, hs) = (omega arith, All-suc token ts hs)

listen_load-cases :
    (framed : Bool) (token : ℕ) (listeners : List ℕ)
    → (listen_load framed token listeners ≡ listeners)
      ⊎ (listen_load framed token listeners ≡ listeners ++ token ∷ [])
unfolding listen_load
listen_load-cases true token listeners = inr refl
listen_load-cases false token listeners = inl refl

listen_load-Listening :
    (framed : Bool) (token : ℕ) (listeners : List ℕ)
    → Listening token listeners
    → Listening (suc token) (listen_load framed (suc token) listeners)
unfolding listen_load
listen_load-Listening framed token listeners (older, before, e) =
    let below : All (λ t. t < suc token) listeners = elim e [
      | inl e ↦ subst (All (λ t. t < suc token)) (sym e) (All-suc token older before)
      | inr e ↦ subst (All (λ t. t < suc token)) (sym e) (
          All-append (λ t. t < suc token) older (token ∷ []) (All-suc token older before)
            (omega arith, tt))
    ] in
    (listeners, below, listen_load-cases framed (suc token) listeners)

clear_timer-Pending :
    (timer : Option ℕ) (token : ℕ) (timers : List (ℕ × ℕ))
    → Pending timer token timers
    → clear_timer timer timers ≡ []
unfolding clear_timer
clear_timer-Pending none token timers (inl e) = e
clear_timer-Pending (some id) token timers (inl e) = rw e refl
clear_timer-Pending timer token timers (inr (id, e, one)) =
    let same : (id == id) ≡ true = ground arith in rw (e, one, same) refl

clear-any :
    (id : ℕ) (timer : Option ℕ) (token : ℕ) (timers : List (ℕ × ℕ))
    → Pending timer token timers
    → Pending timer token (clear_timer (some id) timers)
unfolding clear_timer
clear-any id timer token timers (inl e) = inl (rw e refl)
clear-any id timer token timers (inr (other, e, one)) = elim (Bool-cases (other == id)) [
  | inl same ↦ inl (rw (one, same) refl)
  | inr differ ↦ inr (other, e, rw (one, differ) refl)
]

start_expander-Expanding : (s : Setup) → Expanding s → Expanding (start_expander s)
unfolding start_expander
start_expander-Expanding s (listening, pending) = (
  listen_load-Listening s.has_frame s.nav_expander_token s.frame_listeners listening,
  inr (
    s.next_timer,
    refl,
    ap (λ ts. ts ++ (s.next_timer, suc s.nav_expander_token) ∷ [])
        (clear_timer-Pending s.nav_expander_timer s.nav_expander_token s.timers pending),
  ),
)

resize_with-Expanding : (r : Option Resizer) (s : Setup) → Expanding s → Expanding (resize_with r s)
unfolding resize_with
resize_with-Expanding none s h = h
resize_with-Expanding (some r) s h = h

expand_with-Expanding :
    (enabled : Bool) (path_id : Option (Option Bytes)) (s : Setup)
    → Expanding s
    → Expanding (expand_with enabled path_id s)
unfolding expand_with
expand_with-Expanding true (some path) s h = start_expander-Expanding s h
expand_with-Expanding true none s h = h
expand_with-Expanding false path_id s h = h

set_up-Expanding :
    (rehydrate_nav : Bool) (s : Setup) → Expanding s → Expanding (set_up rehydrate_nav s)
unfolding set_up nav_resizer nav_expander call_parts search_frame_buttons navigation_change
set_up-Expanding rehydrate_nav s h =
    expand_with-Expanding rehydrate_nav (nav_resizer s).path_id (nav_resizer s)
      (resize_with-Expanding s.resizer s h)

call_ready-Expanding :
    (loading rehydrate_nav : Bool) (s : Setup)
    → Expanding s
    → Expanding (call_ready loading rehydrate_nav s)
unfolding call_ready
call_ready-Expanding true rehydrate_nav s h = h
call_ready-Expanding false rehydrate_nav s h = set_up-Expanding rehydrate_nav s h

run_waiting-Expanding :
    (waiting : List Bool) (s : Setup) → Expanding s → Expanding (run_waiting waiting s)
unfolding run_waiting
run_waiting-Expanding [] s h = h
run_waiting-Expanding (rehydrate_nav ∷ waiting) s h =
    run_waiting-Expanding waiting (set_up rehydrate_nav s) (set_up-Expanding rehydrate_nav s h)

sync_nav-Expanding : (sync : Bool) (s : Setup) → Expanding s → Expanding (sync_nav sync s)
unfolding sync_nav
sync_nav-Expanding true s h = subst Expanding (sym (expand_nav_path-posted s.path_id s).1) h
sync_nav-Expanding false s h = h

fire_with-Expanding : (token : Option ℕ) (s : Setup) → Expanding s → Expanding (fire_with token s)
unfolding fire_with
fire_with-Expanding none s h = h
fire_with-Expanding (some token) s h = subst Expanding (sym (post_message-posted token s).1) h

step-Expanding : (e : Event) (s : Setup) → Expanding s → Expanding (step e s)
unfolding step run_script content_loaded show_main app load_frame fire
step-Expanding script s h = call_ready-Expanding s.loading true s h
step-Expanding content_read s h =
    run_waiting-Expanding s.waiting (record s { loading = false; waiting = [] }) h
step-Expanding (show links path_id sync) s h =
    sync_nav-Expanding sync _ (call_ready-Expanding s.loading false _ h)
step-Expanding loaded s (listening, pending) =
    subst Expanding (sym (post_all-posted s.frame_listeners (record s { frame_listeners = [] })).1)
      (([], tt, inl refl), pending)
step-Expanding (fired id) s (listening, pending) =
    fire_with-Expanding (token_of id s.timers) _
      (listening, clear-any id s.nav_expander_timer s.nav_expander_token s.timers pending)

pub run-Expanding : (events : List Event) (s : Setup) → Expanding s → Expanding (run events s)
unfolding run
run-Expanding [] s h = h
run-Expanding (e ∷ events) s h = run-Expanding events (step e s) (step-Expanding e s h)
