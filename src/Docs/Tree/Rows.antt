-- ===== src/Docs/Tree/Rows.antt =====
-- The stripes of the visible rows.
use oauth.Prelude.{
  ℕ, suc, ◌%◌, ◌≡◌, refl, sym, ap, ◌∙◌, List, [], ◌∷◌, true, false, not, Bool-cases, inl, inr,
  if◌then◌else◌, ◌==◌,
}
use oauth.Docs.Tree.{Row, stripe, highlight_from, highlight}
use mathlib.Core.Path.{subst}

-- `queryAll(…).filter(isVisible)`
unfoldable pub visible_rows : List Row → List Row
visible_rows [] = []
visible_rows (row ∷ rows) = let rest = visible_rows rows in if row.visible then row ∷ rest else rest

-- Odd or even by an index, from 0 on, and never both.
abbrev pub Striped : ℕ → Row → Type 0
Striped index row = (row.odd ≡ (index % 2 == 0)) × (row.even ≡ not (index % 2 == 0))

abbrev pub StripedFrom : ℕ → List Row → Type 0
StripedFrom index [] = Unit
StripedFrom index (row ∷ rows) = Striped index row × StripedFrom (suc index) rows

stripe-Striped :
    (index : ℕ) (row : Row)
    → Striped index (stripe index row) × ((stripe index row).visible ≡ row.visible)
unfolding stripe
stripe-Striped index row = elim (Bool-cases (index % 2 == 0)) [
  | inl e ↦ rw e ((refl, refl), refl)
  | inr e ↦ rw e ((refl, refl), refl)
]

visible_rows-shown :
    (row : Row) (rows : List Row)
    → row.visible ≡ true
    → visible_rows (row ∷ rows) ≡ row ∷ visible_rows rows
unfolding visible_rows
visible_rows-shown row rows e = rw e refl

visible_rows-hidden :
    (row : Row) (rows : List Row)
    → row.visible ≡ false
    → visible_rows (row ∷ rows) ≡ visible_rows rows
unfolding visible_rows
visible_rows-hidden row rows e = rw e refl

highlight_from-shown :
    (index : ℕ) (row : Row) (rows : List Row)
    → row.visible ≡ true
    → highlight_from index (row ∷ rows) ≡ stripe index row ∷ highlight_from (suc index) rows
unfolding highlight_from
highlight_from-shown index row rows e = rw e refl

highlight_from-hidden :
    (index : ℕ) (row : Row) (rows : List Row)
    → row.visible ≡ false
    → highlight_from index (row ∷ rows) ≡ row ∷ highlight_from index rows
unfolding highlight_from
highlight_from-hidden index row rows e = rw e refl

highlight_from-Striped :
    (index : ℕ) (rows : List Row) → StripedFrom index (visible_rows (highlight_from index rows))
unfolding visible_rows highlight_from
highlight_from-Striped index [] = tt
highlight_from-Striped index (row ∷ rows) = elim (Bool-cases row.visible) [
  | inl e ↦
      let (striped, same) = stripe-Striped index row in
      subst (StripedFrom index)
        (sym (
          ap visible_rows (highlight_from-shown index row rows e)
          ∙ visible_rows-shown (stripe index row) (highlight_from (suc index) rows) (same ∙ e)))
        (striped, highlight_from-Striped (suc index) rows)
  | inr e ↦
      subst (StripedFrom index)
        (sym (
          ap visible_rows (highlight_from-hidden index row rows e)
          ∙ visible_rows-hidden row (highlight_from index rows) e))
        (highlight_from-Striped index rows)
]

-- The visible rows are striped, odd first, whatever classes they had and whatever rows are hidden
-- between them.
pub highlight-Striped : (rows : List Row) → StripedFrom 0 (visible_rows (highlight rows))
unfolding highlight
highlight-Striped rows = highlight_from-Striped 0 rows
