-- ===== src/Docs/Setup/Counts.antt =====
-- How often the listeners stand on the page, by the flags that guard their bindings.
use oauth.Prelude.{
  ℕ, zero, suc, ◌+◌, ◌≡◌, refl, List, [], ◌∷◌, ◌++◌, Bool, true, false, ◌==◌, if◌then◌else◌, All,
  ◌⊎◌, inl, inr, map, arith,
}
use oauth.Docs.Setup.{
  WindowListener, message_navigate, message_escape, resize, popstate, PointerListener, pointer_down,
  pointer_up, pointer_moved, Link, bind_once, bind_link,
}
use oauth.Docs.Setup.Events.{new_links}

listener_code : WindowListener → ℕ
listener_code message_navigate = 0
listener_code message_escape = 1
listener_code resize = 2
listener_code popstate = 3

-- How often a listener has been added.
unfoldable pub count : WindowListener → List WindowListener → ℕ
unfolding listener_code
count w [] = 0
count w (v ∷ listeners) =
    let rest = count w listeners in if listener_code v == listener_code w then suc rest else rest

count-append :
    (w : WindowListener) (xs ys : List WindowListener)
    → count w (xs ++ ys) ≡ count w xs + count w ys
unfolding count
count-append w [] ys = omega arith
count-append w (x ∷ xs) ys = ground (arith, count-append w xs ys)

-- One for a binding that is done.
abbrev pub once : Bool → ℕ
once done = if done then 1 else 0

-- The listeners of the window, by their flags.
abbrev pub Windows : Bool → Bool → Bool → List WindowListener → Type 0
Windows navigation frame change listeners =
    (count message_navigate listeners ≡ once navigation)
    × (count message_escape listeners ≡ once frame)
    × (count resize listeners ≡ once frame)
    × (count popstate listeners ≡ once change)

Windows-append :
    (navigation frame change navigation' frame' change' : Bool) (ls new : List WindowListener)
    → Windows navigation frame change ls
    → (once navigation + count message_navigate new ≡ once navigation')
      × (once frame + count message_escape new ≡ once frame')
      × (once frame + count resize new ≡ once frame')
      × (once change + count popstate new ≡ once change')
    → Windows navigation' frame' change' (ls ++ new)
Windows-append navigation frame change navigation' frame' change' ls new h (a, b, c, d) = (
  omega (arith, count-append message_navigate ls new),
  omega (arith, count-append message_escape ls new),
  omega (arith, count-append resize ls new),
  omega (arith, count-append popstate ls new),
)

pub bind_navigate :
    (navigation frame change : Bool) (ls : List WindowListener)
    → Windows navigation frame change ls
    → Windows true frame change (bind_once navigation (message_navigate ∷ []) ls)
unfolding bind_once count listener_code
bind_navigate true frame change ls h = h
bind_navigate false frame change ls h =
    Windows-append false frame change true frame change ls (message_navigate ∷ []) h
      (omega arith, omega arith, omega arith, omega arith)

pub bind_frame :
    (navigation frame change : Bool) (ls : List WindowListener)
    → Windows navigation frame change ls
    → Windows navigation true change (bind_once frame (message_escape ∷ resize ∷ []) ls)
unfolding bind_once count listener_code
bind_frame navigation true change ls h = h
bind_frame navigation false change ls h =
    Windows-append navigation false change navigation true change ls (message_escape ∷ resize ∷ [])
      h (omega arith, omega arith, omega arith, omega arith)

pub bind_change :
    (navigation frame change : Bool) (ls : List WindowListener)
    → Windows navigation frame change ls
    → Windows navigation frame true (bind_once change (popstate ∷ []) ls)
unfolding bind_once count listener_code
bind_change navigation frame true ls h = h
bind_change navigation frame false ls h =
    Windows-append navigation frame false navigation frame true ls (popstate ∷ []) h
      (omega arith, omega arith, omega arith, omega arith)

-- The listeners of a link, by its flag: those it has when it is marked, of which a link that is not
-- marked yet gets one.
abbrev pub LinkFits : ℕ → Link → Type 0
LinkFits n l =
    ((l.bound ≡ true) × (l.click_listeners ≡ n))
    ⊎ ((l.bound ≡ false) × (l.click_listeners ≡ 0) × (n ≡ 1))

abbrev pub all_pointers : List PointerListener
all_pointers = pointer_down ∷ pointer_up ∷ pointer_moved ∷ []

abbrev pub Pointers : Bool → List PointerListener → Type 0
Pointers bound listeners = listeners ≡ (if bound then all_pointers else [])

pub bind_once-all :
    (bound : Bool) (ls : List PointerListener)
    → Pointers bound ls
    → bind_once bound all_pointers ls ≡ all_pointers
unfolding bind_once
bind_once-all true ls h = h
bind_once-all false ls h = rw h refl

abbrev pub Clicked : ℕ → Link → Type 0
Clicked n l = (l.bound ≡ true) × (l.click_listeners ≡ n)

bind_link-Clicked : (n : ℕ) (l : Link) → LinkFits n l → Clicked n (bind_link l)
unfolding bind_link
bind_link-Clicked n l (inl (b, k)) = rw b (refl, k)
bind_link-Clicked n l (inr (b, k, one)) = rw b (refl, omega arith)

pub bind_links :
    (n : ℕ) (links : List Link) → All (LinkFits n) links → All (Clicked n) (map bind_link links)
bind_links n [] h = tt
bind_links n (l ∷ links) (h, hs) = (bind_link-Clicked n l h, bind_links n links hs)

pub Clicked-fits : (n : ℕ) (links : List Link) → All (Clicked n) links → All (LinkFits n) links
Clicked-fits n [] h = tt
Clicked-fits n (l ∷ links) (h, hs) = (inl h, Clicked-fits n links hs)

-- The links of a new page are marked, and have no listener.
pub new_links-fit : (n : ℕ) → All (LinkFits 0) (new_links n)
unfolding new_links bind_link
new_links-fit zero = tt
new_links-fit (suc n) = (inl (refl, refl), new_links-fit n)
