-- ===== src/Docs/Reveal/Told.antt =====
-- What the links say, and what they show.
use oauth.Prelude.{
  ℕ, zero, suc, ◌≡◌, refl, ap, ◌∙◌, List, [], ◌∷◌, Bool, true, false, not, Bytes, codes, bytes_eq,
  if◌then◌else◌, map, All,
}
use oauth.Docs.Reveal.{
  toggle_display, is_shown_by, SourceLink, click_expanded, click_source, Box, click_hide_toc,
}

-- The text says what a click would do.
abbrev pub Told : Bool → SourceLink → Type 0
Told by_sheet l =
    l.text_content
    ≡ (if is_shown_by by_sheet l.style then codes "Hide source" else codes "View source")

click_expanded-Told :
    (by_sheet expanded : Bool)
    → (is_shown_by by_sheet (click_expanded expanded).style ≡ not expanded)
      × Told by_sheet (click_expanded expanded)
unfolding click_expanded toggle_display is_shown_by bytes_eq
click_expanded-Told by_sheet true = (refl, refl)
click_expanded-Told by_sheet false = (refl, refl)

unfoldable pub clicks : ℕ → Bool → SourceLink → SourceLink
clicks zero by_sheet l = l
clicks (suc n) by_sheet l = clicks n by_sheet (click_source by_sheet l)

unfoldable pub clicks_on_box : ℕ → Box → Box
clicks_on_box zero box = box
clicks_on_box (suc n) box = clicks_on_box n (click_hide_toc box)

unfoldable pub flips : ℕ → Bool → Bool
flips zero b = b
flips (suc n) b = flips n (not b)

click_source-Told :
    (by_sheet : Bool) (l : SourceLink)
    → (is_shown_by by_sheet (click_source by_sheet l).style ≡ not (is_shown_by by_sheet l.style))
      × Told by_sheet (click_source by_sheet l)
unfolding click_source
click_source-Told by_sheet l = click_expanded-Told by_sheet (is_shown_by by_sheet l.style)

clicks-Told :
    (n : ℕ) (by_sheet : Bool) (l : SourceLink)
    → Told by_sheet l
    → Told by_sheet (clicks n by_sheet l)
      × (is_shown_by by_sheet (clicks n by_sheet l).style ≡ flips n (is_shown_by by_sheet l.style))
unfolding clicks flips
clicks-Told zero by_sheet l told = (told, refl)
clicks-Told (suc n) by_sheet l told =
    let (flipped, next) = click_source-Told by_sheet l in
    let (told', shown) = clicks-Told n by_sheet (click_source by_sheet l) next in
    (told', shown ∙ ap (flips n) flipped)

-- The list is shown unless the box is hidden, and then the small texts are.
abbrev pub BoxTold : Box → Type 0
BoxTold box =
    (is_shown_by true box.top ≡ not box.hidden)
    × All (λ style. is_shown_by true style ≡ box.hidden) box.smalls

smalls-told :
    (hidden : Bool) (styles : List Bytes)
    → All
        (λ style. is_shown_by true style ≡ not hidden)
        (map (λ style. toggle_display (not hidden) []) styles)
unfolding toggle_display is_shown_by bytes_eq
smalls-told hidden [] = tt
smalls-told true (style ∷ styles) = (refl, smalls-told true styles)
smalls-told false (style ∷ styles) = (refl, smalls-told false styles)

top-told : (hidden : Bool) → is_shown_by true (toggle_display hidden []) ≡ not (not hidden)
unfolding toggle_display is_shown_by bytes_eq
top-told true = refl
top-told false = refl

clicks_on_box-BoxTold :
    (n : ℕ) (box : Box)
    → BoxTold box
    → BoxTold (clicks_on_box n box) × ((clicks_on_box n box).hidden ≡ flips n box.hidden)
unfolding clicks_on_box flips click_hide_toc
clicks_on_box-BoxTold zero box told = (told, refl)
clicks_on_box-BoxTold (suc n) box told =
    clicks_on_box-BoxTold n (click_hide_toc box)
      (top-told box.hidden, smalls-told box.hidden box.smalls)

-- After any number of clicks, but at least one, whatever was said and shown before: the link to a
-- source code says "Hide source" exactly when it is visible; the table of contents is visible exactly
-- when its box is not of the class "hidden", and the small texts of its title when it is; and every
-- click has turned what was visible.
pub clicked-Told :
    (n : ℕ) (by_sheet : Bool) (l : SourceLink) (box : Box)
    → (Told by_sheet (clicks (suc n) by_sheet l)
        × (is_shown_by by_sheet (clicks (suc n) by_sheet l).style
            ≡ flips (suc n) (is_shown_by by_sheet l.style)))
      × (BoxTold (clicks_on_box (suc n) box)
          × ((clicks_on_box (suc n) box).hidden ≡ flips (suc n) box.hidden))
unfolding clicks clicks_on_box flips click_hide_toc
clicked-Told n by_sheet l box =
    let (flipped, next) = click_source-Told by_sheet l in
    let (told, shown) = clicks-Told n by_sheet (click_source by_sheet l) next in
    (
      (told, shown ∙ ap (flips n) flipped),
      clicks_on_box-BoxTold n (click_hide_toc box)
          (top-told box.hidden, smalls-told box.hidden box.smalls),
    )
