-- ===== src/Docs/Loading/Timers.antt =====
-- The timers that are pending, against those that `appState` knows.
use oauth.Prelude.{
  ℕ, ◌≡◌, List, [], ◌∷◌, true, Option, none, some, inl, inr, Bool-cases, All, ◌==◌, ==_iff, arith,
}
use mathlib.Core.Option.{some-injective}
use mathlib.Core.Path.{subst}
use oauth.Docs.Loading.{Task, show, tick, hide, Loading, remove_timer, clear_timeout, find_timer}

-- A pending tick is the one of `loadingProgressTimer`, a pending callback that shows the indicator
-- the one of `loadingIndicatorTimer`.
abbrev pub Owner : Option ℕ → Option ℕ → ℕ × Task → Type 0
Owner progress indicator (id, show navigation_id) = indicator ≡ some id
Owner progress indicator (id, tick started_at) = progress ≡ some id
Owner progress indicator (id, hide) = Unit

abbrev pub WellTimed : Loading → Type 0
WellTimed l = All (Owner l.loading_progress_timer l.loading_indicator_timer) l.timers

same_id : (a b : ℕ) → some a ≡ some b → (b == a) ≡ true
same_id a b h = ground (arith, ==_iff b a)

-- Clearing a timer frees its field.
pub remove-progress :
    (id : ℕ) (p i : Option ℕ) (timers : List (ℕ × Task))
    → All (Owner (some id) i) timers
    → All (Owner p i) (remove_timer id timers)
unfolding remove_timer
remove-progress id p i [] h = tt
remove-progress id p i ((other, show n) ∷ timers) (h, hs) = elim (Bool-cases (other == id)) [
  | inl e ↦ rw e (remove-progress id p i timers hs)
  | inr e ↦ rw e (h, remove-progress id p i timers hs)
]
remove-progress id p i ((other, hide) ∷ timers) (h, hs) = elim (Bool-cases (other == id)) [
  | inl e ↦ rw e (remove-progress id p i timers hs)
  | inr e ↦ rw e (h, remove-progress id p i timers hs)
]
remove-progress id p i ((other, tick s) ∷ timers) (h, hs) =
    rw (same_id id other h) (remove-progress id p i timers hs)

pub remove-indicator :
    (id : ℕ) (p i : Option ℕ) (timers : List (ℕ × Task))
    → All (Owner p (some id)) timers
    → All (Owner p i) (remove_timer id timers)
unfolding remove_timer
remove-indicator id p i [] h = tt
remove-indicator id p i ((other, tick s) ∷ timers) (h, hs) = elim (Bool-cases (other == id)) [
  | inl e ↦ rw e (remove-indicator id p i timers hs)
  | inr e ↦ rw e (h, remove-indicator id p i timers hs)
]
remove-indicator id p i ((other, hide) ∷ timers) (h, hs) = elim (Bool-cases (other == id)) [
  | inl e ↦ rw e (remove-indicator id p i timers hs)
  | inr e ↦ rw e (h, remove-indicator id p i timers hs)
]
remove-indicator id p i ((other, show n) ∷ timers) (h, hs) =
    rw (same_id id other h) (remove-indicator id p i timers hs)

module _ {κ} (P : ℕ × Task → Type κ) where
  pub remove-All :
      (id : ℕ) (timers : List (ℕ × Task)) → All P timers → All P (remove_timer id timers)
  unfolding remove_timer
  remove-All id [] h = tt
  remove-All id ((other, task) ∷ timers) (h, hs) = elim (Bool-cases (other == id)) [
    | inl e ↦ rw e (remove-All id timers hs)
    | inr e ↦ rw e (h, remove-All id timers hs)
  ]

  pub clear-All :
      (o : Option ℕ) (timers : List (ℕ × Task)) → All P timers → All P (clear_timeout o timers)
  unfolding clear_timeout
  clear-All none timers h = h
  clear-All (some id) timers h = remove-All id timers h

-- Where a field knows no timer, it may know any.
pub none-progress :
    (p i : Option ℕ) (timers : List (ℕ × Task)) → All (Owner none i) timers → All (Owner p i) timers
none-progress p i [] h = tt
none-progress p i ((other, show n) ∷ timers) (h, hs) = (h, none-progress p i timers hs)
none-progress p i ((other, hide) ∷ timers) (h, hs) = (h, none-progress p i timers hs)
none-progress p i ((other, tick s) ∷ timers) (h, hs) = absurd (cc)

pub none-indicator :
    (p i : Option ℕ) (timers : List (ℕ × Task)) → All (Owner p none) timers → All (Owner p i) timers
none-indicator p i [] h = tt
none-indicator p i ((other, tick s) ∷ timers) (h, hs) = (h, none-indicator p i timers hs)
none-indicator p i ((other, hide) ∷ timers) (h, hs) = (h, none-indicator p i timers hs)
none-indicator p i ((other, show n) ∷ timers) (h, hs) = absurd (cc)

pub clear-progress :
    (o p i : Option ℕ) (timers : List (ℕ × Task))
    → All (Owner o i) timers
    → All (Owner p i) (clear_timeout o timers)
unfolding clear_timeout
clear-progress none p i timers h = none-progress p i timers h
clear-progress (some id) p i timers h = remove-progress id p i timers h

pub clear-indicator :
    (o p i : Option ℕ) (timers : List (ℕ × Task))
    → All (Owner p o) timers
    → All (Owner p i) (clear_timeout o timers)
unfolding clear_timeout
clear-indicator none p i timers h = none-indicator p i timers h
clear-indicator (some id) p i timers h = remove-indicator id p i timers h

-- The task of a timer that goes off belongs to it.
pub find_timer-Owner :
    (id : ℕ) (p i : Option ℕ) (timers : List (ℕ × Task)) (task : Task)
    → All (Owner p i) timers
    → find_timer id timers ≡ some task
    → Owner p i (id, task)
unfolding find_timer
find_timer-Owner id p i [] task h e = absurd (cc)
find_timer-Owner id p i ((other, t) ∷ timers) task (h, hs) e = elim (Bool-cases (other == id)) [
  | inl same ↦
      subst (λ x. Owner p i x)
        (λ j. ((==_iff other id).0 same j, some-injective t task (rw same at e) j)) h
  | inr next ↦ find_timer-Owner id p i timers task hs (rw next at e)
]
