-- ===== src/Docs/Tree/Expanded.antt =====
-- The items above a target that `expandTo` opens.
use oauth.Prelude.{
  ◌≡◌, refl, sym, ◌∙◌, List, [], ◌∷◌, Bool, true, false, Option, none, some, Bool-cases, inl, inr,
  if◌then◌else◌, ◌≢◌,
}
use mathlib.Core.Path.{subst}
use oauth.Docs.Tree.{
  Element, is_full_list, uncollapse, uncollapse_above, set_expanded, expand_toggle,
  expand_toggles_above, open_toggle, expand_to,
}

-- An open item: not collapsed, and its toggle, if it has one, says so.
abbrev pub Open : Element → Type 0
Open e = (e.collapsed ≡ false) × (e.aria_expanded ≢ some false)

abbrev pub OpenItem : Element → Type 0
OpenItem e = if e.is_li then Open e else Unit

-- The items of a list up to the element `full_list` are open.
abbrev pub OpenBelow : List Element → Type 0
OpenBelow [] = Unit
OpenBelow (e ∷ above) =
    let rest = OpenBelow above in if is_full_list e then Unit else OpenItem e × rest

set_expanded-true : (o : Option Bool) → set_expanded o ≢ some false
unfolding set_expanded
set_expanded-true none e = cc
set_expanded-true (some b) e = cc

opened-Open :
    (e : Element)
    → OpenItem (expand_toggle (uncollapse e))
      × (is_full_list (expand_toggle (uncollapse e)) ≡ is_full_list e)
unfolding expand_toggle uncollapse is_full_list
opened-Open e = elim (Bool-cases e.is_li) [
  | inl h ↦ rw h ((refl, set_expanded-true e.aria_expanded), refl)
  | inr h ↦ rw h (tt, refl)
]

uncollapse-full : (e : Element) → is_full_list (uncollapse e) ≡ is_full_list e
unfolding uncollapse is_full_list
uncollapse-full e = elim (Bool-cases e.is_li) [ inl h ↦ rw h refl | inr h ↦ rw h refl ]

opened_below :
    (e : Element) (above : List Element)
    → is_full_list e ≡ false
    → expand_toggles_above (uncollapse_above (e ∷ above))
      ≡ expand_toggle (uncollapse e) ∷ expand_toggles_above (uncollapse_above above)
unfolding expand_toggles_above uncollapse_above
opened_below e above h = rw h (rw (uncollapse-full e ∙ h) refl)

opened_at :
    (e : Element) (above : List Element)
    → is_full_list e ≡ true
    → expand_toggles_above (uncollapse_above (e ∷ above)) ≡ e ∷ above
unfolding expand_toggles_above uncollapse_above
opened_at e above h = rw (h, h) refl

OpenBelow-cons :
    (e : Element) (above : List Element)
    → is_full_list e ≡ false
    → OpenItem e
    → OpenBelow above
    → OpenBelow (e ∷ above)
OpenBelow-cons e above h opened rest = rw h (opened, rest)

OpenBelow-full :
    (e : Element) (above : List Element) → is_full_list e ≡ true → OpenBelow (e ∷ above)
OpenBelow-full e above h = rw h tt

above-Open : (above : List Element) → OpenBelow (expand_toggles_above (uncollapse_above above))
unfolding expand_toggles_above uncollapse_above
above-Open [] = tt
above-Open (e ∷ above) = elim (Bool-cases (is_full_list e)) [
  | inl h ↦ subst OpenBelow (sym (opened_at e above h)) (OpenBelow-full e above h)
  | inr h ↦
      let (opened, same) = opened-Open e in
      subst OpenBelow (sym (opened_below e above h))
        (OpenBelow-cons (expand_toggle (uncollapse e)) _ (same ∙ h) opened (above-Open above))
]

-- After `expandTo`, the target and every item above it in the list are open, whichever were
-- collapsed, and their toggles say so.
pub expand_to-Open :
    (target : Element) (below above : List Element)
    → Open (expand_to target below above).0 × OpenBelow (expand_to target below above).2
unfolding expand_to open_toggle
expand_to-Open target below above =
    ((refl, set_expanded-true target.aria_expanded), above-Open above)
