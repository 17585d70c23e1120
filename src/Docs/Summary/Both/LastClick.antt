-- ===== src/Docs/Summary/Both/LastClick.antt =====
-- Two collections over one entry of the storage: what a visitor sees, page after page.
use oauth.Prelude.{
  ℕ, ◌≡◌, refl, sym, ap, ◌∙◌, List, [], ◌∷◌, Bool, true, false, not, Option, some, Bytes, bytes_eq,
  Bool-cases, inl, inr, get_elem?, All,
}
use mathlib.Core.Path.{subst}
use oauth.Docs.Summary.{Toggle, Summaries, click_toggle, click_found, is_collapse, summary_toggle}
use oauth.Docs.Summary.Reload.{offer, Consistent, flips, click_toggle-Consistent}
use oauth.Docs.Summary.Both.{
  Both, methods_of, with_methods, constants_of, with_constants, click_method, click_constant,
  constant_summary_toggle, toggle_both,
}

-- What the visitor has made of the collections: whether each is collapsed, and what the next page
-- comes up with.
pub record View : Type 0 where
  pub methods_collapsed : Bool
  pub constants_collapsed : Bool
  pub next_collapsed : Bool

-- A page comes up with both collections alike.
abbrev pub alike : Bool → View
alike b = record { methods_collapsed = b; constants_collapsed = b; next_collapsed = b }

abbrev pub flip_methods : View → View
flip_methods v = record v {
  methods_collapsed = not v.methods_collapsed;
  next_collapsed = not v.methods_collapsed;
}

abbrev pub flip_constants : View → View
flip_constants v = record v {
  constants_collapsed = not v.constants_collapsed;
  next_collapsed = not v.constants_collapsed;
}

abbrev pub fresh_page : List Toggle → List Toggle → Option Bytes → Both
fresh_page methods constants stored = record {
  methods = methods;
  constants = constants;
  summary_collapsed = stored;
}

-- The loader frame has the storage of the page: the script has restored the collections there, and is
-- called again for the copy, which takes over their texts and lists.
unfoldable pub copied_page : List Toggle → List Toggle → Option Bytes → Both
copied_page methods constants stored =
    toggle_both (toggle_both (fresh_page methods constants stored))

-- What the copy shows, by what the storage said: a first collection that came up collapsed is expanded
-- again, which is stored, so that constants behind methods stay collapsed.
abbrev pub copied_view : List Toggle → List Toggle → Bool → View
copied_view methods constants false = alike false
copied_view (t ∷ methods) constants true = record {
  methods_collapsed = false;
  constants_collapsed = true;
  next_collapsed = false;
}
copied_view [] (t ∷ constants) true = alike false
copied_view [] [] true = alike true

-- The pages of a visit: a first one, with whatever the storage holds, clicks on toggles that are
-- there, pages that the browser opens, with their full lists, and pages that a navigation shows.
pub data Visit : Both → View → Type 0 where
  opened :
      (methods constants : List Toggle) (stored : Option Bytes)
      → All (Consistent false) methods
      → All (Consistent false) constants
      → Visit (toggle_both (fresh_page methods constants stored)) (alike (is_collapse stored))
  method_clicked :
      (b : Both) (v : View) (i : ℕ) (t : Toggle)
      → Visit b v
      → get_elem? b.methods i ≡ some t
      → Visit (click_method i b) (flip_methods v)
  constant_clicked :
      (b : Both) (v : View) (i : ℕ) (t : Toggle)
      → Visit b v
      → get_elem? b.constants i ≡ some t
      → Visit (click_constant i b) (flip_constants v)
  followed :
      (b : Both) (v : View) (methods constants : List Toggle)
      → Visit b v
      → All (Consistent false) methods
      → All (Consistent false) constants
      → Visit
          (toggle_both (fresh_page methods constants b.summary_collapsed))
          (alike v.next_collapsed)
  navigated :
      (b : Both) (v : View) (methods constants : List Toggle)
      → Visit b v
      → All (Consistent false) methods
      → All (Consistent false) constants
      → Visit
          (copied_page methods constants b.summary_collapsed)
          (copied_view methods constants v.next_collapsed)

-- The page shows a view: every toggle and its lists are in the state of their collection, and the
-- storage says what the next page comes up with.
abbrev pub Shows : View → Both → Type 0
Shows v b =
    All (Consistent v.methods_collapsed) b.methods
    × All (Consistent v.constants_collapsed) b.constants
    × (is_collapse b.summary_collapsed ≡ v.next_collapsed)

is_collapse-offer : (b : Bool) → is_collapse (some (offer b)) ≡ not b
unfolding is_collapse bytes_eq
is_collapse-offer true = refl
is_collapse-offer false = refl

-- A collection that comes up with what the storage holds, which keeps its meaning.
abbrev Restored : Option Bytes → Summaries → Type 0
Restored stored s =
    All (Consistent (is_collapse stored)) s.toggles
    × (is_collapse s.summary_collapsed ≡ is_collapse stored)

summary_toggle-Restored :
    (toggles : List Toggle) (stored : Option Bytes)
    → All (Consistent false) toggles
    → Restored stored (summary_toggle (record { toggles = toggles; summary_collapsed = stored }))
unfolding summary_toggle click_toggle click_found
summary_toggle-Restored [] stored h = elim (Bool-cases (is_collapse stored)) [
  | inl collapsed ↦ rw (collapsed, collapsed) (tt, refl)
  | inr expanded ↦ rw expanded (tt, is_collapse-offer true)
]
summary_toggle-Restored (t ∷ toggles) stored h = elim (Bool-cases (is_collapse stored)) [
  | inl collapsed ↦
      rw collapsed (
        flips false (t ∷ toggles) h,
        ap (λ x. is_collapse (some x)) h.0.0 ∙ is_collapse-offer false,
      )
  | inr expanded ↦ rw expanded (h, is_collapse-offer true)
]

toggle_both-Shows :
    (methods constants : List Toggle) (stored : Option Bytes)
    → All (Consistent false) methods
    → All (Consistent false) constants
    → Shows (alike (is_collapse stored)) (toggle_both (fresh_page methods constants stored))
unfolding toggle_both constant_summary_toggle methods_of with_methods constants_of with_constants
toggle_both-Shows methods constants stored hm hc =
    let (first, kept) = summary_toggle-Restored methods stored hm in
    let after = summary_toggle (record { toggles = methods; summary_collapsed = stored }) in
    let (second, kept_too) = summary_toggle-Restored constants after.summary_collapsed hc in
    (
      first,
      subst (λ b. All (Consistent b) (toggle_both (fresh_page methods constants stored)).constants)
          kept second,
      kept_too ∙ kept,
    )

abbrev restored : List Toggle → Option Bytes → Summaries
restored toggles stored = summary_toggle (record { toggles = toggles; summary_collapsed = stored })

abbrev Filled : List Toggle → Type 0
Filled [] = ⊥
Filled (t ∷ toggles) = Unit

-- A collection with toggles is flipped where the storage says so, and says the opposite then.
restored-flipped :
    (b : Bool) (toggles : List Toggle) (stored : Option Bytes)
    → is_collapse stored ≡ true
    → Filled toggles
    → All (Consistent b) toggles
    → Filled (restored toggles stored).toggles
      × All (Consistent (not b)) (restored toggles stored).toggles
      × (is_collapse (restored toggles stored).summary_collapsed ≡ not b)
unfolding summary_toggle click_toggle click_found
restored-flipped b [] stored e filled h = absurd filled
restored-flipped b (t ∷ toggles) stored e filled h =
    rw e (tt, flips b (t ∷ toggles) h, ap (λ x. is_collapse (some x)) h.0.0 ∙ is_collapse-offer b)

restored-none :
    (stored : Option Bytes)
    → is_collapse stored ≡ true
    → restored [] stored ≡ record { toggles = []; summary_collapsed = stored }
unfolding summary_toggle click_toggle click_found
restored-none stored e = rw e refl

restored-kept :
    (toggles : List Toggle) (stored : Option Bytes)
    → is_collapse stored ≡ false
    → ((restored toggles stored).toggles ≡ toggles)
      × (is_collapse (restored toggles stored).summary_collapsed ≡ false)
unfolding summary_toggle
restored-kept toggles stored e = rw e (refl, is_collapse-offer true)

toggle_both-no_methods :
    (constants : List Toggle) (stored : Option Bytes)
    → is_collapse stored ≡ true
    → toggle_both (fresh_page [] constants stored)
      ≡ fresh_page []
          (restored constants stored).toggles
          (restored constants stored).summary_collapsed
unfolding toggle_both constant_summary_toggle methods_of with_methods constants_of with_constants
toggle_both-no_methods constants stored e =
    ap
      (λ m.
        fresh_page m.toggles (restored constants m.summary_collapsed).toggles
          (restored constants m.summary_collapsed).summary_collapsed)
      (restored-none stored e)

-- The second pass, over methods that were collapsed by the first.
second-Shows :
    (methods constants : List Toggle) (stored : Option Bytes)
    → Filled methods
    → is_collapse stored ≡ true
    → All (Consistent true) methods
    → All (Consistent true) constants
    → Shows
        (record { methods_collapsed = false; constants_collapsed = true; next_collapsed = false })
        (toggle_both (fresh_page methods constants stored))
unfolding toggle_both constant_summary_toggle methods_of with_methods constants_of with_constants
second-Shows methods constants stored filled e hm hc =
    let (_, flipped, ended) = restored-flipped true methods stored e filled hm in
    let (same, kept) = restored-kept constants (restored methods stored).summary_collapsed ended in
    (flipped, subst (All (Consistent true)) (sym same) hc, kept)

first-Filled :
    (t : Toggle) (methods constants : List Toggle) (stored : Option Bytes)
    → is_collapse stored ≡ true
    → All (Consistent false) (t ∷ methods)
    → Filled (toggle_both (fresh_page (t ∷ methods) constants stored)).methods
unfolding toggle_both constant_summary_toggle methods_of with_methods constants_of with_constants
first-Filled t methods constants stored e h = (restored-flipped false (t ∷ methods) stored e tt h).0

copied-Shows :
    (c : Bool) (methods constants : List Toggle) (stored : Option Bytes)
    → is_collapse stored ≡ c
    → All (Consistent false) methods
    → All (Consistent false) constants
    → Shows (copied_view methods constants c) (copied_page methods constants stored)
unfolding copied_page
copied-Shows false methods constants stored e hm hc =
    let first = toggle_both (fresh_page methods constants stored) in
    let (m, k, stays) =
      subst (λ c. Shows (alike c) first) e (toggle_both-Shows methods constants stored hm hc) in
    subst (λ c. Shows (alike c) (toggle_both first)) stays
      (toggle_both-Shows first.methods first.constants first.summary_collapsed m k)
copied-Shows true (t ∷ methods) constants stored e hm hc =
    let first = toggle_both (fresh_page (t ∷ methods) constants stored) in
    let (m, k, stays) =
      subst (λ c. Shows (alike c) first) e
        (toggle_both-Shows (t ∷ methods) constants stored hm hc) in
    second-Shows first.methods first.constants first.summary_collapsed
      (first-Filled t methods constants stored e hm) stays m k
copied-Shows true [] (t ∷ constants) stored e hm hc =
    let first = restored (t ∷ constants) stored in
    let (filled, collapsed, again) = restored-flipped false (t ∷ constants) stored e tt hc in
    let (_, expanded, ended) =
      restored-flipped true first.toggles first.summary_collapsed again filled collapsed in
    subst (Shows (alike false))
      (sym (
        ap toggle_both (toggle_both-no_methods (t ∷ constants) stored e)
        ∙ toggle_both-no_methods first.toggles first.summary_collapsed again))
      (tt, expanded, ended)
copied-Shows true [] [] stored e hm hc =
    let once =
      toggle_both-no_methods [] stored e
      ∙ ap (λ s. fresh_page [] s.toggles s.summary_collapsed) (restored-none stored e) in
    subst (Shows (alike true)) (sym (ap toggle_both once ∙ once)) (tt, tt, e)

-- On every page of a visit, each collection is in the state that the clicks on its own toggles have
-- made of it, toggles and lists alike; a page that the browser opens next comes up with both
-- collections in the state of the one that was clicked last. A page with toggles that a navigation shows
-- comes up expanded, whatever that state is, and stores it, but for its constants: they are collapsed
-- where that state is collapsed and toggles of methods stand before them.
pub Visit-Shows : (b : Both) (v : View) → Visit b v → Shows v b
unfolding click_method click_constant methods_of with_methods constants_of with_constants
Visit-Shows _ _ (opened methods constants stored hm hc) =
    toggle_both-Shows methods constants stored hm hc
Visit-Shows _ _ (method_clicked b v i t visit here) =
    let (hm, hc, _) = Visit-Shows b v visit in
    let (flipped, stored) =
      click_toggle-Consistent v.methods_collapsed i (methods_of b) t hm here in
    (flipped, hc, ap is_collapse stored ∙ is_collapse-offer v.methods_collapsed)
Visit-Shows _ _ (constant_clicked b v i t visit here) =
    let (hm, hc, _) = Visit-Shows b v visit in
    let (flipped, stored) =
      click_toggle-Consistent v.constants_collapsed i (constants_of b) t hc here in
    (hm, flipped, ap is_collapse stored ∙ is_collapse-offer v.constants_collapsed)
Visit-Shows _ _ (followed b v methods constants visit hm hc) =
    let (_, _, stored) = Visit-Shows b v visit in
    subst (λ c. Shows (alike c) (toggle_both (fresh_page methods constants b.summary_collapsed)))
      stored (toggle_both-Shows methods constants b.summary_collapsed hm hc)
Visit-Shows _ _ (navigated b v methods constants visit hm hc) =
    let (_, _, stored) = Visit-Shows b v visit in
    copied-Shows v.next_collapsed methods constants b.summary_collapsed stored hm hc
