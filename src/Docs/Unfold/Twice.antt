-- ===== src/Docs/Unfold/Twice.antt =====
-- Two clicks on a link that unfolds.
use oauth.Prelude.{ℕ, ◌≡◌, ◌≢◌, refl, Bool, true, false, Option, none, some, Bytes, codes}
use oauth.Docs.Unfold.{
  Unfolding, height_or, expand_defines, collapse_defines, defines_by, click_defines, expand_tree,
  collapse_tree, tree_by, click_tree,
}

-- Folded, with the text that the page starts with or that folding leaves, and a height.
abbrev pub FoldedAt : ℕ → Bytes → Unfolding → Type 0
FoldedAt height text u =
    (u.shown ≡ false)
    × (u.style_height ≡ some height)
    × (u.text_content ≡ text)
    × (u.expanded ≡ some false)

defines_by-twice :
    (o : Option Bool) (a b c d : ℕ) (u : Unfolding)
    → o ≢ some true
    → FoldedAt a (codes "more...") (click_defines c d (defines_by o a b u))
unfolding click_defines defines_by expand_defines collapse_defines height_or
defines_by-twice none a b c d u e = (refl, refl, refl, refl)
defines_by-twice (some false) a b c d u e = (refl, refl, refl, refl)
defines_by-twice (some true) a b c d u e = absurd (e refl)

tree_by-twice :
    (o : Option Bool) (a b c d : ℕ) (u : Unfolding)
    → o ≢ some true
    → FoldedAt a (codes "show all") (click_tree c d (tree_by o a b u))
unfolding click_tree tree_by expand_tree collapse_tree height_or
tree_by-twice none a b c d u e = (refl, refl, refl, refl)
tree_by-twice (some false) a b c d u e = (refl, refl, refl, refl)
tree_by-twice (some true) a b c d u e = absurd (e refl)

-- Two clicks on a link that is folded leave it folded, with its first text, and the part beside it
-- has the height that was measured before the first click, whatever is measured at the others.
pub clicks-twice :
    (a b c d : ℕ) (u : Unfolding)
    → u.expanded ≢ some true
    → FoldedAt a (codes "more...") (click_defines c d (click_defines a b u))
      × FoldedAt a (codes "show all") (click_tree c d (click_tree a b u))
unfolding click_defines click_tree
clicks-twice a b c d u e =
    (defines_by-twice u.expanded a b c d u e, tree_by-twice u.expanded a b c d u e)
