-- ===== src/Docs/Summary/Reload.antt =====
-- The state of the summaries, over clicks and from one page to the next.
use oauth.Prelude.{
  ℕ, zero, suc, ◌≡◌, refl, sym, ap, ◌∙◌, List, [], ◌∷◌, Bool, true, false, not, some, Bytes, codes,
  bytes_eq, if◌then◌else◌, map, get_elem?, All,
}
use mathlib.Core.Option.{some-injective}
use oauth.Docs.Summary.{
  Lists, no_list, full_only, compact_and_full, Toggle, Summaries, next_text, next_lists,
  flip_toggle, click_found, click_toggle, is_collapse, summary_toggle,
}

-- What a toggle says while the summaries are collapsed or not: what a click would do.
abbrev pub offer : Bool → Bytes
offer collapsed = if collapsed then codes "expand" else codes "collapse"

-- One list is visible: the compact one while collapsed, else the full one.
abbrev pub Showing : Bool → Lists → Type 0
Showing collapsed no_list = Unit
Showing collapsed (full_only shown) = (collapsed ≡ false) × (shown ≡ true)
Showing collapsed (compact_and_full compact full) = (compact ≡ collapsed) × (full ≡ not collapsed)

abbrev pub Consistent : Bool → Toggle → Type 0
Consistent collapsed t = (t.text_content ≡ offer collapsed) × Showing collapsed t.lists

next_text-offer : (b : Bool) → next_text (offer b) ≡ offer (not b)
unfolding next_text bytes_eq
next_text-offer true = refl
next_text-offer false = refl

next_lists-Showing :
    (b : Bool) (lists : Lists) → Showing b lists → Showing (not b) (next_lists lists)
unfolding next_lists
next_lists-Showing b no_list h = tt
next_lists-Showing b (full_only shown) (open_now, seen) = rw (open_now, seen) (refl, refl)
next_lists-Showing b (compact_and_full compact full) (c, f) = (ap not c, ap not f)

pub flips :
    (b : Bool) (toggles : List Toggle)
    → All (Consistent b) toggles
    → All (Consistent (not b)) (map flip_toggle toggles)
unfolding flip_toggle
flips b [] h = tt
flips b (t ∷ toggles) ((text, lists), hs) = (
  (ap next_text text ∙ next_text-offer b, next_lists-Showing b t.lists lists),
  flips b toggles hs,
)

said :
    (b : Bool) (toggles : List Toggle) (i : ℕ) (t : Toggle)
    → All (Consistent b) toggles
    → get_elem? toggles i ≡ some t
    → t.text_content ≡ offer b
said b [] i t h e = absurd (cc)
said b (u ∷ toggles) zero t (h, hs) e = ap (λ x. x.text_content) (sym (some-injective u t e)) ∙ h.0
said b (u ∷ toggles) (suc i) t (h, hs) e = said b toggles i t hs e

pub click_toggle-Consistent :
    (b : Bool) (i : ℕ) (s : Summaries) (t : Toggle)
    → All (Consistent b) s.toggles
    → get_elem? s.toggles i ≡ some t
    → All (Consistent (not b)) (click_toggle i s).toggles
      × ((click_toggle i s).summary_collapsed ≡ some (offer b))
unfolding click_toggle click_found
click_toggle-Consistent b i s t h e = rw e (flips b s.toggles h, ap some (said b s.toggles i t h e))

reloaded :
    (b : Bool) (t : Toggle) (toggles : List Toggle)
    → All (Consistent false) (t ∷ toggles)
    → All
        (Consistent (not b))
        (summary_toggle
          (record { toggles = t ∷ toggles; summary_collapsed = some (offer b) })).toggles
unfolding summary_toggle is_collapse bytes_eq click_toggle click_found
reloaded true t toggles h = h
reloaded false t toggles h = flips false (t ∷ toggles) h

-- While all toggles agree with their lists, a click on one of them collapses the summaries, or
-- expands them again, all together; and a page that is opened next, with its full lists, comes up in
-- the same state.
pub click_toggle-reloaded :
    (b : Bool) (i : ℕ) (s : Summaries) (clicked t : Toggle) (toggles : List Toggle)
    → All (Consistent b) s.toggles
    → get_elem? s.toggles i ≡ some clicked
    → All (Consistent false) (t ∷ toggles)
    → All (Consistent (not b)) (click_toggle i s).toggles
      × All
          (Consistent (not b))
          (summary_toggle (record {
            toggles = t ∷ toggles;
            summary_collapsed = (click_toggle i s).summary_collapsed;
          })).toggles
click_toggle-reloaded b i s clicked t toggles h e fresh =
    let (now, stored) = click_toggle-Consistent b i s clicked h e in
    (now, rw stored (reloaded b t toggles fresh))
