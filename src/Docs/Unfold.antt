-- ===== src/Docs/Unfold.antt =====
-- The links of docs/js/app.js that unfold a part of the page: `createDefineLinks` and
-- `createFullTreeLinks`. The heights that the browser measures at a click are arguments.
pub mod Twice
use oauth.Prelude.{ℕ, Bool, true, false, Option, none, some, Bytes, codes}

-- A link with `dataset.expanded` and `dataset.height`, the part that it unfolds, and the height that
-- is set for the part beside it.
pub record Unfolding : Type 0 where
  pub expanded : Option Bool
  pub height : Option ℕ
  pub text_content : Bytes
  pub shown : Bool
  pub style_height : Option ℕ

-- `if (toggleLink.dataset.height)`
unfoldable pub height_or : Option ℕ → Option ℕ → Option ℕ
height_or none old = old
height_or (some height) old = some height

-- The two branches of the listener of `createDefineLinks`; the height of the summary is measured
-- before `defines` is shown, that of the link's parent after it.
unfoldable pub expand_defines : ℕ → ℕ → Unfolding → Unfolding
expand_defines own_height parent_height u = record u {
  height = some own_height;
  shown = true;
  style_height = some parent_height;
  text_content = codes "(less)";
  expanded = some true;
}

unfoldable pub collapse_defines : Unfolding → Unfolding
unfolding height_or
collapse_defines u = record u {
  shown = false;
  style_height = height_or u.height u.style_height;
  text_content = codes "more...";
  expanded = some false;
}

-- `toggleLink.dataset.expanded === "true"`
defines_by : Option Bool → ℕ → ℕ → Unfolding → Unfolding
defines_by (some true) own_height parent_height u = collapse_defines u
defines_by _ own_height parent_height u = expand_defines own_height parent_height u

unfoldable pub click_defines : ℕ → ℕ → Unfolding → Unfolding
unfolding defines_by
click_defines own_height parent_height u = defines_by u.expanded own_height parent_height u

-- The listener of `createFullTreeLinks`, with the class "showAll".
unfoldable pub expand_tree : ℕ → ℕ → Unfolding → Unfolding
expand_tree own_height container_height u = record u {
  height = some own_height;
  shown = true;
  text_content = codes "(hide)";
  style_height = some container_height;
  expanded = some true;
}

unfoldable pub collapse_tree : Unfolding → Unfolding
unfolding height_or
collapse_tree u = record u {
  shown = false;
  style_height = height_or u.height u.style_height;
  text_content = codes "show all";
  expanded = some false;
}

tree_by : Option Bool → ℕ → ℕ → Unfolding → Unfolding
tree_by (some true) own_height container_height u = collapse_tree u
tree_by _ own_height container_height u = expand_tree own_height container_height u

unfoldable pub click_tree : ℕ → ℕ → Unfolding → Unfolding
unfolding tree_by
click_tree own_height container_height u = tree_by u.expanded own_height container_height u
