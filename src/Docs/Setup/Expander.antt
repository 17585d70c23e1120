-- ===== src/Docs/Setup/Expander.antt =====
-- The messages that `navExpander` of docs/js/app.js posts to the list.
use oauth.Prelude.{
  ℕ, ◌<◌, ◌≤◌, ◌≡◌, refl, sym, ap, ◌∙◌, ◌⊎◌, inl, inr, List, [], ◌∷◌, ◌++◌, true, false, Option,
  none, some, ◌==◌, append-nil, All, Bytes, arith, length, Bool-cases,
}
use mathlib.Core.Path.{subst}
use oauth.Docs.Setup.{Setup}
use oauth.Docs.Setup.Events.{expand_nav_path, post_message, post_all, load_frame, Event, run}
use oauth.Docs.Setup.Expanding.{Listening, Pending, run-Expanding}

post_message-older : (t : ℕ) (s : Setup) → t < s.nav_expander_token → post_message t s ≡ s
unfolding post_message
post_message-older t s before =
    let old : (t == s.nav_expander_token) ≡ false = ground arith in rw old refl

post_message-latest :
    (s : Setup) → post_message s.nav_expander_token s ≡ expand_nav_path s.path_id s
unfolding post_message
post_message-latest s =
    let latest : (s.nav_expander_token == s.nav_expander_token) ≡ true = ground arith in
    rw latest refl

-- The callbacks of earlier calls do nothing.
post_all-older :
    (older rest : List ℕ) (s : Setup)
    → All (λ t. t < s.nav_expander_token) older
    → post_all (older ++ rest) s ≡ post_all rest s
unfolding post_all
post_all-older [] rest s h = refl
post_all-older (t ∷ older) rest s (before, h) =
    ap (post_all (older ++ rest)) (post_message-older t s before) ∙ post_all-older older rest s h

-- At most one message has been posted, with the path of the page.
abbrev pub PostsOnce : Setup → Setup → Type 0
PostsOnce before after =
    (after.posted ≡ before.posted)
    ⊎ ((path : Bytes) × (before.path_id ≡ some (some path))
        × (after.posted ≡ before.posted ++ path ∷ []))

expand_nav_path-once :
    (path_id : Option (Option Bytes)) (s : Setup)
    → (expand_nav_path path_id s).posted ≡ s.posted
      ⊎ ((path : Bytes) × (path_id ≡ some (some path))
          × ((expand_nav_path path_id s).posted ≡ s.posted ++ path ∷ []))
unfolding expand_nav_path
expand_nav_path-once (some (some path)) s = elim (Bool-cases s.has_frame) [
  | inl framed ↦ inr (path, refl, rw framed refl)
  | inr no_frame ↦ inl (rw no_frame refl)
]
expand_nav_path-once (some none) s = inl refl
expand_nav_path-once none s = inl refl

load_frame-once :
    (s : Setup) → Listening s.nav_expander_token s.frame_listeners → PostsOnce s (load_frame s)
unfolding load_frame post_all
load_frame-once s (older, before, inl e) =
    let shown = record s { frame_listeners = [] } in
    inl (
      ap (λ t. t.posted)
        (ap (λ ts. post_all ts shown) (e ∙ sym (append-nil older))
          ∙ post_all-older older [] shown before))
load_frame-once s (older, before, inr e) =
    let shown = record s { frame_listeners = [] } in
    let same =
      ap (λ ts. post_all ts shown) e
      ∙ post_all-older older (s.nav_expander_token ∷ []) shown before
      ∙ post_message-latest shown in
    subst (PostsOnce s) (sym same) (expand_nav_path-once s.path_id shown)

timers-one :
    (timer : Option ℕ) (token : ℕ) (timers : List (ℕ × ℕ))
    → Pending timer token timers
    → length timers ≤ 1
timers-one timer token timers (inl e) = rw e (omega arith)
timers-one timer token timers (inr (id, e, one)) = rw one (omega arith)

-- After any events on a page where nothing listens for a load of the frame and no timer is pending:
-- a load of the frame posts at most one message, with the path of the page that is shown then,
-- however many calls of `navExpander` were waiting for it, and at most one timer is pending.
pub run-PostsOnce :
    (events : List Event) (s : Setup)
    → s.frame_listeners ≡ []
    → s.timers ≡ []
    → PostsOnce (run events s) (load_frame (run events s)) × (length (run events s).timers ≤ 1)
run-PostsOnce events s no_listener no_timer =
    let (listening, pending) = run-Expanding events s (([], tt, inl no_listener), inl no_timer) in
    let last = run events s in
    (
      load_frame-once last listening,
      timers-one last.nav_expander_timer last.nav_expander_token last.timers pending,
    )
