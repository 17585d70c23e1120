-- ===== src/Docs/Loading/Progress.antt =====
-- The course of the progress shown, from tick to tick.
use mathlib.Core.Path.{subst}
use oauth.Prelude.{
  ℕ, ◌-◌, ◌≤◌, ◌≡◌, ◌↔◌, refl, sym, ◌∙◌, none, some, if◌then◌else◌, leb, ltb, Bool, true, false,
  not, min, ◌∷◌, inl, inr, Bool-cases, arith,
}
use oauth.Docs.Loading.{
  Loading, tick, progress_of, whole, set_loading_progress, next_tick, run_tick,
}

-- The progress never goes back nor beyond the whole, and is whole after eleven seconds and not
-- before.
progress_of_mono :
    (a b : ℕ)
    → a ≤ b
    → (progress_of a ≤ progress_of b)
      × (progress_of b ≤ whole)
      × ((progress_of a ≡ whole) ↔ (11000 ≤ a))
unfolding progress_of
progress_of_mono a b h = ground arith

-- The tests of `tick` and of the time agree.
is_whole : (elapsed : ℕ) → leb 11000 elapsed ≡ not (ltb (progress_of elapsed) whole)
unfolding progress_of
is_whole elapsed = ground arith

next_tick-progress :
    (started progress : ℕ) (l : Loading) → (next_tick started progress l).progress ≡ l.progress
unfolding next_tick
next_tick-progress started progress l = elim (Bool-cases (ltb progress whole)) [
  | inl more ↦ rw more refl
  | inr ended ↦ rw ended refl
]

set_loading_progress-progress :
    (progress : ℕ) (l : Loading)
    → l.has_indicator ≡ true
    → (set_loading_progress progress l).progress ≡ min whole progress
unfolding set_loading_progress
set_loading_progress-progress progress l has = rw has refl

-- What a tick shows.
run_tick-progress :
    (started now : ℕ) (l : Loading)
    → l.has_indicator ≡ true
    → (run_tick started now l).progress ≡ progress_of (now - started)
unfolding run_tick
run_tick-progress started now l has =
    let (_, within, _) = progress_of_mono (now - started) (now - started) (omega arith) in
    next_tick-progress started (progress_of (now - started)) _
    ∙ set_loading_progress-progress (progress_of (now - started)) l has
    ∙ omega arith

-- The next tick is pending until the progress is whole.
abbrev pub TicksOn : ℕ → ℕ → Loading → Loading → Type 0
TicksOn started elapsed l l' =
    (l'.timers ≡ (if leb 11000 elapsed then l.timers else (l.next_timer, tick started) ∷ l.timers))
    × (l'.loading_progress_timer ≡ (if leb 11000 elapsed then none else some l.next_timer))

next_tick-TicksOn :
    (started elapsed : ℕ) (l : Loading)
    → TicksOn started elapsed l (next_tick started (progress_of elapsed) l)
unfolding next_tick
next_tick-TicksOn started elapsed l = elim (Bool-cases (ltb (progress_of elapsed) whole)) [
  | inl more ↦ rw (is_whole elapsed, more) (refl, refl)
  | inr ended ↦ rw (is_whole elapsed, ended) (refl, refl)
]

set_or_keep :
    (has : Bool) (progress : ℕ) (l : Loading)
    → (shown : ℕ) × ((if has then record l { progress = progress } else l)
        ≡ record l { progress = shown })
set_or_keep true progress l = (progress, refl)
set_or_keep false progress l = (l.progress, refl)

-- A tick sets the progress of the page, if anything.
set_loading_progress-kept :
    (progress : ℕ) (l : Loading)
    → (shown : ℕ) × (set_loading_progress progress l ≡ record l { progress = shown })
unfolding set_loading_progress
set_loading_progress-kept progress l = set_or_keep l.has_indicator (min whole progress) l

run_tick-TicksOn :
    (started now : ℕ) (l : Loading) → TicksOn started (now - started) l (run_tick started now l)
unfolding run_tick
run_tick-TicksOn started now l =
    let progress = progress_of (now - started) in
    let (shown, kept) = set_loading_progress-kept progress l in
    subst (λ m. TicksOn started (now - started) l (next_tick started progress m)) (sym kept)
      (next_tick-TicksOn started (now - started) (record l { progress = shown }))

-- Of two ticks of one load, on pages with the indicator, the later shows no less than the earlier and
-- no more than the whole; it shows the whole after eleven seconds and not before. Until then it sets
-- one timer, for the next tick, and from then on none: the ticks end.
pub run_tick_mono :
    (started a b : ℕ) (l m : Loading)
    → a ≤ b
    → l.has_indicator ≡ true
    → m.has_indicator ≡ true
    → ((run_tick started a l).progress ≤ (run_tick started b m).progress)
      × ((run_tick started b m).progress ≤ whole)
      × (((run_tick started b m).progress ≡ whole) ↔ (11000 ≤ b - started))
      × TicksOn started (b - started) m (run_tick started b m)
run_tick_mono started a b l m h has has' =
    let (up, within, _) = progress_of_mono (a - started) (b - started) (omega arith) in
    let (_, _, full) = progress_of_mono (b - started) (b - started) (omega arith) in
    rw (run_tick-progress started a l has, run_tick-progress started b m has')
      (up, within, full, run_tick-TicksOn started b m)
