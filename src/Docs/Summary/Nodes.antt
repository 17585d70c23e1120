-- ===== src/Docs/Summary/Nodes.antt =====
-- `toggleSummaryCollection` of docs/js/app.js on the nodes of a page: the containers of the toggles
-- and the elements between them, which are all siblings, so that a search from a container may pass
-- the next one. A container is told by the text of its toggle.
pub mod Refines
use oauth.Prelude.{
  ℕ, zero, suc, ◌+◌, List, [], ◌∷◌, Bool, true, false, not, Option, none, some, Bytes,
  if◌then◌else◌,
}
use oauth.Docs.Summary.{next_text}

-- A list, with its class "compact" and `isVisible`, or an element that does not match the selector.
pub data Node : Type 0 where
  container : Bytes → Node
  other : ℕ → Node
  summary_list : Bool → Bool → Node

-- `firstNextMatchingSibling` and `toggleDisplay` of what it finds.
unfoldable pub toggle_next : List Node → List Node
toggle_next [] = []
toggle_next (container text ∷ rest) = container text ∷ toggle_next rest
toggle_next (other n ∷ rest) = other n ∷ toggle_next rest
toggle_next (summary_list compact visible ∷ rest) = summary_list compact (not visible) ∷ rest

-- The branches for a compact list, and for a full one, which gets a compact copy before it.
unfoldable pub flip_next : List Node → List Node
unfolding toggle_next
flip_next [] = []
flip_next (container text ∷ rest) = container text ∷ flip_next rest
flip_next (other n ∷ rest) = other n ∷ flip_next rest
flip_next (summary_list true visible ∷ rest) = summary_list true (not visible) ∷ toggle_next rest
flip_next (summary_list false visible ∷ rest) =
    summary_list true visible ∷ summary_list false false ∷ rest

-- The round of the loop for the toggle at an index.
unfoldable pub flip_at : ℕ → List Node → List Node
unfolding flip_next
flip_at i [] = []
flip_at i (other n ∷ rest) = other n ∷ flip_at i rest
flip_at i (summary_list c v ∷ rest) = summary_list c v ∷ flip_at i rest
flip_at zero (container text ∷ rest) = container (next_text text) ∷ flip_next rest
flip_at (suc i) (container text ∷ rest) = container text ∷ flip_at i rest

-- The rounds from an index on.
unfoldable pub flip_from : ℕ → ℕ → List Node → List Node
unfolding flip_at
flip_from i zero nodes = nodes
flip_from i (suc rounds) nodes = flip_from (suc i) rounds (flip_at i nodes)

unfoldable pub toggle_count : List Node → ℕ
toggle_count [] = 0
toggle_count (container text ∷ rest) = suc (toggle_count rest)
toggle_count (other n ∷ rest) = toggle_count rest
toggle_count (summary_list c v ∷ rest) = toggle_count rest

unfoldable pub flip_all : List Node → List Node
unfolding flip_from toggle_count
flip_all nodes = flip_from 0 (toggle_count nodes) nodes

unfoldable pub text_at : ℕ → List Node → Option Bytes
text_at i [] = none
text_at i (other n ∷ rest) = text_at i rest
text_at i (summary_list c v ∷ rest) = text_at i rest
text_at zero (container text ∷ rest) = some text
text_at (suc i) (container text ∷ rest) = text_at i rest

pub record Page : Type 0 where
  pub nodes : List Node
  pub summary_collapsed : Option Bytes

click_text : Option Bytes → Page → Page
click_text none p = p
click_text (some text) p = record { nodes = flip_all p.nodes; summary_collapsed = some text }

-- A click on the toggle at an index.
unfoldable pub click_page : ℕ → Page → Page
unfolding click_text flip_all
click_page i p = click_text (text_at i p.nodes) p
