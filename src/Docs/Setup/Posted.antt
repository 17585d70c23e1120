-- ===== src/Docs/Setup/Posted.antt =====
-- What messages to the list change.
use oauth.Prelude.{
  ℕ, ◌≡◌, refl, Bool-cases, ap, ◌∙◌, inl, inr, List, [], ◌∷◌, ◌++◌, Option, none, some, ◌==◌, Bytes,
}
use oauth.Docs.Setup.{Setup}
use oauth.Docs.Setup.Events.{expand_nav_path, post_message, post_all}

-- What messages and timers change: none of what is bound.
pub expand_nav_path-posted :
    (path_id : Option (Option Bytes)) (s : Setup)
    → (posted : List Bytes) × (expand_nav_path path_id s ≡ record s { posted = posted })
unfolding expand_nav_path
expand_nav_path-posted (some (some path)) s = elim (Bool-cases s.has_frame) [
  | inl framed ↦ (s.posted ++ path ∷ [], rw framed refl)
  | inr no_frame ↦ (s.posted, rw no_frame refl)
]
expand_nav_path-posted (some none) s = (s.posted, refl)
expand_nav_path-posted none s = (s.posted, refl)

pub post_message-posted :
    (token : ℕ) (s : Setup)
    → (posted : List Bytes) × (post_message token s ≡ record s { posted = posted })
unfolding post_message
post_message-posted token s = elim (Bool-cases (token == s.nav_expander_token)) [
  | inl latest ↦ let (posted, e) = expand_nav_path-posted s.path_id s in (posted, rw latest e)
  | inr old ↦ (s.posted, rw old refl)
]

pub post_all-posted :
    (tokens : List ℕ) (s : Setup)
    → (posted : List Bytes) × (post_all tokens s ≡ record s { posted = posted })
unfolding post_all
post_all-posted [] s = (s.posted, refl)
post_all-posted (token ∷ tokens) s =
    let (posted, e) = post_message-posted token s in
    let (all, es) = post_all-posted tokens (record s { posted = posted }) in
    (all, ap (post_all tokens) e ∙ es)
