-- ===== src/Docs/Loading.antt =====
-- The loading indicator of docs/js/app.js: `setMainLoading` to `cancelMainLoading`, with the timers
-- of the browser. Progress is counted in ten-thousandths of a percent, in which the fractions of the
-- code are whole; the rounding of floating-point numbers is left out.
pub mod Timers
pub mod Progress
pub mod Invariant
use oauth.Prelude.{
  ℕ, suc, ◌+◌, ◌-◌, ◌*◌, List, [], ◌∷◌, Bool, true, false, Option, none, some, ltb, leb, ◌==◌,
  if◌then◌else◌, min,
}

-- The callbacks that timeouts are set for.
pub data Task : Type 0 where
  -- of `scheduleMainLoading`, for a navigation
  show : ℕ → Task
  -- `tick`, with `startedAt`
  tick : ℕ → Task
  -- of `cancelMainLoading`
  hide : Task

-- The timers of `appState`, those that are pending in the browser, and the elements of the page.
pub record Loading : Type 0 where
  pub loading_indicator_timer : Option ℕ
  pub loading_progress_timer : Option ℕ
  pub loading_progress_hide_timer : Option ℕ
  pub timers : List (ℕ × Task)
  pub next_timer : ℕ
  pub has_main : Bool
  pub has_indicator : Bool
  pub body_loading : Bool
  pub main_loading : Bool
  pub aria_busy : Bool
  pub progress : ℕ

-- The pending timers without one.
unfoldable pub remove_timer : ℕ → List (ℕ × Task) → List (ℕ × Task)
remove_timer id [] = []
remove_timer id ((other, task) ∷ timers) =
    let rest = remove_timer id timers in if other == id then rest else (other, task) ∷ rest

-- `clearTimeout`
unfoldable pub clear_timeout : Option ℕ → List (ℕ × Task) → List (ℕ × Task)
clear_timeout none timers = timers
clear_timeout (some id) timers = remove_timer id timers

unfoldable pub find_timer : ℕ → List (ℕ × Task) → Option Task
find_timer id [] = none
find_timer id ((other, task) ∷ timers) =
    let rest = find_timer id timers in if other == id then some task else rest

unfoldable pub set_main_loading : Bool → Loading → Loading
set_main_loading loading l =
    if l.has_main
    then record l { body_loading = loading; main_loading = loading; aria_busy = loading }
    else record l { body_loading = loading }

-- 100 percent
abbrev pub whole : ℕ
whole = 1000000

unfoldable pub set_loading_progress : ℕ → Loading → Loading
set_loading_progress progress l =
    if l.has_indicator then record l { progress = min whole progress } else l

unfoldable pub clear_loading_progress_timers : Loading → Loading
clear_loading_progress_timers l = record l {
  timers =
      clear_timeout l.loading_progress_hide_timer (clear_timeout l.loading_progress_timer l.timers);
  loading_progress_timer = none;
  loading_progress_hide_timer = none;
}

-- The progress after so many milliseconds: 99 percent in the first second, the rest in ten more.
unfoldable pub progress_of : ℕ → ℕ
progress_of elapsed =
    if leb elapsed 1000 then elapsed * 990 else 990000 + min 10000 (elapsed - 1000)

-- The end of `tick`: the next one, unless the progress is whole.
unfoldable pub next_tick : ℕ → ℕ → Loading → Loading
next_tick started_at progress l =
    if ltb progress whole
    then record l {
      timers = (l.next_timer, tick started_at) ∷ l.timers;
      next_timer = suc l.next_timer;
      loading_progress_timer = some l.next_timer;
    }
    else record l { loading_progress_timer = none }

-- `tick`, at a time of `Date.now`.
unfoldable pub run_tick : ℕ → ℕ → Loading → Loading
run_tick started_at now l =
    next_tick started_at (progress_of (now - started_at))
      (set_loading_progress (progress_of (now - started_at)) l)

unfoldable pub start_loading_progress : ℕ → Loading → Loading
start_loading_progress now l =
    run_tick now now
      (set_main_loading true (set_loading_progress 0 (clear_loading_progress_timers l)))

unfoldable pub schedule_main_loading : ℕ → Loading → Loading
schedule_main_loading navigation_id l = record l {
  timers =
      (l.next_timer, show navigation_id)
      ∷ clear_timeout l.loading_progress_hide_timer
          (clear_timeout l.loading_indicator_timer l.timers);
  next_timer = suc l.next_timer;
  loading_progress_hide_timer = none;
  loading_indicator_timer = some l.next_timer;
}

-- The timers that `cancelMainLoading` clears.
unfoldable pub clear_loading_timers : Loading → Loading
clear_loading_timers l = record l {
  timers =
      clear_timeout l.loading_progress_timer (clear_timeout l.loading_indicator_timer l.timers);
  loading_indicator_timer = none;
  loading_progress_timer = none;
}

-- The timeout for `hide`.
unfoldable pub set_hide_timer : Loading → Loading
set_hide_timer l = record l {
  timers = (l.next_timer, hide) ∷ l.timers;
  next_timer = suc l.next_timer;
  loading_progress_hide_timer = some l.next_timer;
}

unfoldable pub cancel_main_loading : Loading → Loading
cancel_main_loading l = set_hide_timer (set_loading_progress whole (clear_loading_timers l))

unfoldable pub end_show : Loading → Loading
end_show l = record l { loading_indicator_timer = none }

unfoldable pub end_hide : Loading → Loading
end_hide l = record l { loading_progress_hide_timer = none }

-- A callback, at a time, with `appState.latestNavigationId`.
unfoldable pub run_task : ℕ → ℕ → Task → Loading → Loading
run_task latest now (show navigation_id) l =
    end_show (if navigation_id == latest then start_loading_progress now l else l)
run_task latest now (tick started_at) l = run_tick started_at now l
run_task latest now hide l = end_hide (set_loading_progress 0 (set_main_loading false l))

fire_task : ℕ → ℕ → ℕ → Option Task → Loading → Loading
fire_task latest now id none l = l
fire_task latest now id (some task) l =
    run_task latest now task (record l { timers = remove_timer id l.timers })

-- A timer goes off.
unfoldable pub fire : ℕ → ℕ → ℕ → Loading → Loading
unfolding fire_task
fire latest now id l = fire_task latest now id (find_timer id l.timers) l
