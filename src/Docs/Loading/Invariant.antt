-- ===== src/Docs/Loading/Invariant.antt =====
-- What happens to the loading indicator keeps its timers known, and a cancelled one stays away.
use oauth.Prelude.{
  ℕ, ◌-◌, ◌≡◌, refl, ◌∙◌, Bool, true, false, Option, none, some, inl, inr, Bool-cases, All, ◌==◌,
  ltb, if◌then◌else◌,
}
use oauth.Docs.Loading.{
  Task, show, tick, hide, Loading, whole, remove_timer, find_timer, set_main_loading,
  set_loading_progress, clear_loading_progress_timers, next_tick, run_tick, progress_of,
  start_loading_progress, schedule_main_loading, clear_loading_timers, set_hide_timer,
  cancel_main_loading, end_show, end_hide, run_task, fire_task, fire,
}
use oauth.Docs.Loading.Timers.{
  none-progress, none-indicator, Owner, WellTimed, remove-progress, remove-indicator, remove-All,
  clear-All, clear-progress, clear-indicator, find_timer-Owner,
}

-- The pending timers and the two fields are what the invariant reads.
abbrev pub Kept : Loading → Loading → Type 0
Kept l l' =
    (l'.timers ≡ l.timers)
    × (l'.loading_progress_timer ≡ l.loading_progress_timer)
    × (l'.loading_indicator_timer ≡ l.loading_indicator_timer)

set_loading_progress-Kept : (n : ℕ) (l : Loading) → Kept l (set_loading_progress n l)
unfolding set_loading_progress
set_loading_progress-Kept n l = elim (Bool-cases l.has_indicator) [
  | inl e ↦ rw e (refl, refl, refl)
  | inr e ↦ rw e (refl, refl, refl)
]

set_main_loading-Kept : (b : Bool) (l : Loading) → Kept l (set_main_loading b l)
unfolding set_main_loading
set_main_loading-Kept b l = elim (Bool-cases l.has_main) [
  | inl e ↦ rw e (refl, refl, refl)
  | inr e ↦ rw e (refl, refl, refl)
]

Kept-WellTimed : (l l' : Loading) → Kept l l' → WellTimed l → WellTimed l'
Kept-WellTimed l l' (a, b, c) h = rw (a, b, c) h

-- The pending timers are known, with `indicator` for the one that shows the indicator.
abbrev Timed : Option ℕ → Loading → Type 0
Timed indicator l = All (Owner l.loading_progress_timer indicator) l.timers

-- Free of ticks: any owner of them will do.
abbrev NoTick : Option ℕ → Loading → Type 0
NoTick indicator l = (p : Option ℕ) → All (Owner p indicator) l.timers

Kept-NoTick : (i : Option ℕ) (l l' : Loading) → Kept l l' → NoTick i l → NoTick i l'
Kept-NoTick i l l' (a, b, c) h p = rw a (h p)

next_tick-Timed :
    (i : Option ℕ) (s n : ℕ) (l : Loading)
    → NoTick i l
    → Timed i (next_tick s n l)
      × ((next_tick s n l).loading_indicator_timer ≡ l.loading_indicator_timer)
unfolding next_tick
next_tick-Timed i s n l h = elim (Bool-cases (ltb n whole)) [
  | inl e ↦ rw e ((refl, h _), refl)
  | inr e ↦ rw e (h none, refl)
]

run_tick-Timed :
    (i : Option ℕ) (s now : ℕ) (l : Loading)
    → NoTick i l
    → Timed i (run_tick s now l)
      × ((run_tick s now l).loading_indicator_timer ≡ l.loading_indicator_timer)
unfolding run_tick
run_tick-Timed i s now l h =
    let shown = set_loading_progress (progress_of (now - s)) l in
    let kept = set_loading_progress-Kept (progress_of (now - s)) l in
    let (timed, same) =
      next_tick-Timed i s (progress_of (now - s)) shown (Kept-NoTick i l shown kept h) in
    (timed, same ∙ kept.2)

clear_loading_progress_timers-NoTick :
    (i : Option ℕ) (l : Loading) → Timed i l → NoTick i (clear_loading_progress_timers l)
unfolding clear_loading_progress_timers
clear_loading_progress_timers-NoTick i l h p =
    clear-All _ l.loading_progress_hide_timer _
      (clear-progress l.loading_progress_timer p i l.timers h)

start_loading_progress-Timed :
    (i : Option ℕ) (now : ℕ) (l : Loading) → Timed i l → Timed i (start_loading_progress now l)
unfolding start_loading_progress
start_loading_progress-Timed i now l h =
    let cleared = clear_loading_progress_timers l in
    let reset = set_loading_progress 0 cleared in
    let shown = set_main_loading true reset in
    (run_tick-Timed i now now shown (
      Kept-NoTick i reset shown (set_main_loading-Kept true reset) (
        Kept-NoTick i cleared reset (set_loading_progress-Kept 0 cleared)
          (clear_loading_progress_timers-NoTick i l h)))).0

pub schedule_main_loading-WellTimed :
    (navigation_id : ℕ) (l : Loading)
    → WellTimed l
    → WellTimed (schedule_main_loading navigation_id l)
unfolding schedule_main_loading
schedule_main_loading-WellTimed navigation_id l h = (
  refl,
  clear-All _ l.loading_progress_hide_timer _
      (clear-indicator l.loading_indicator_timer l.loading_progress_timer _ l.timers h),
)

-- No callback is pending but those that hide the indicator.
abbrev pub OnlyHide : Loading → Type 0
OnlyHide l = All (Owner none none) l.timers

clear_loading_timers-OnlyHide : (l : Loading) → WellTimed l → OnlyHide (clear_loading_timers l)
unfolding clear_loading_timers
clear_loading_timers-OnlyHide l h =
    clear-progress l.loading_progress_timer none none _
      (clear-indicator l.loading_indicator_timer l.loading_progress_timer none l.timers h)

-- If the pending callbacks are those that `appState` knows, a cancellation leaves none pending
-- that could show the indicator again or move its progress.
pub cancel_main_loading-OnlyHide : (l : Loading) → WellTimed l → OnlyHide (cancel_main_loading l)
unfolding cancel_main_loading set_hide_timer
cancel_main_loading-OnlyHide l h =
    let (same, _, _) = set_loading_progress-Kept whole (clear_loading_timers l) in
    (tt, rw same (clear_loading_timers-OnlyHide l h))

pub cancel_main_loading-WellTimed : (l : Loading) → WellTimed l → WellTimed (cancel_main_loading l)
cancel_main_loading-WellTimed l h =
    none-progress _ _ (cancel_main_loading l).timers
      (none-indicator none _ (cancel_main_loading l).timers (cancel_main_loading-OnlyHide l h))

show-Timed :
    (latest now n : ℕ) (l : Loading)
    → Timed none l
    → Timed none (if n == latest then start_loading_progress now l else l)
show-Timed latest now n l h = elim (Bool-cases (n == latest)) [
  | inl e ↦ rw e (start_loading_progress-Timed none now l h)
  | inr e ↦ rw e h
]

end_hide-WellTimed : (l : Loading) → WellTimed l → WellTimed (end_hide l)
unfolding end_hide
end_hide-WellTimed l h = h

run_task-WellTimed :
    (latest now id : ℕ) (task : Task) (l : Loading)
    → Owner l.loading_progress_timer l.loading_indicator_timer (id, task)
    → WellTimed l
    → WellTimed (run_task latest now task (record l { timers = remove_timer id l.timers }))
unfolding run_task end_show
run_task-WellTimed latest now id (tick s) l owner h =
    let left = record l { timers = remove_timer id l.timers } in
    let (timed, same) =
      run_tick-Timed l.loading_indicator_timer s now left
        λ p. remove-progress id p l.loading_indicator_timer l.timers (rw owner at h) in
    rw same timed
run_task-WellTimed latest now id hide l owner h =
    let left = record l { timers = remove_timer id l.timers } in
    let quiet = set_main_loading false left in
    end_hide-WellTimed (set_loading_progress 0 quiet) (
      Kept-WellTimed quiet (set_loading_progress 0 quiet) (set_loading_progress-Kept 0 quiet)
        (Kept-WellTimed left quiet (set_main_loading-Kept false left) (remove-All _ id l.timers h)))
run_task-WellTimed latest now id (show n) l owner h =
    show-Timed latest now n (record l { timers = remove_timer id l.timers })
      (remove-indicator id l.loading_progress_timer none l.timers (rw owner at h))

fire_task-WellTimed :
    (latest now id : ℕ) (found : Option Task) (l : Loading)
    → ((task : Task)
        → found ≡ some task
        → Owner l.loading_progress_timer l.loading_indicator_timer (id, task))
    → WellTimed l
    → WellTimed (fire_task latest now id found l)
unfolding fire_task
fire_task-WellTimed latest now id none l owner h = h
fire_task-WellTimed latest now id (some task) l owner h =
    run_task-WellTimed latest now id task l (owner task refl) h

-- A timer that goes off, with whatever callback, keeps every pending callback known: a tick to
-- `loadingProgressTimer`, one that shows the indicator to `loadingIndicatorTimer`.
pub fire-WellTimed :
    (latest now id : ℕ) (l : Loading) → WellTimed l → WellTimed (fire latest now id l)
unfolding fire
fire-WellTimed latest now id l h =
    fire_task-WellTimed latest now id (find_timer id l.timers) l
      (λ task e. find_timer-Owner id _ _ l.timers task h e) h
