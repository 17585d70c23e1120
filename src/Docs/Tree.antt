-- ===== src/Docs/Tree.antt =====
-- The list of docs/js/full_list.js: `isVisible`, `setClicked` to `toggleItem`, `clearSearch`, and
-- `highlight` to `windowEvents`. An element is modelled with those above it, from its parent on.
pub mod Expanded
pub mod Rows
use oauth.Prelude.{
  ℕ, suc, ◌+◌, ◌%◌, List, [], ◌∷◌, ◌++◌, Bool, true, false, not, ◌&&◌, ◌||◌, Option, none, some,
  Bytes, codes, bytes_eq, ◌==◌, if◌then◌else◌, drop, map,
}
use oauth.Prelude.Lines.{start_with}

-- An element with the toggle that it holds, if it holds one: `aria-expanded`.
pub record Element : Type 0 where
  pub id : Bytes
  pub is_li : Bool
  pub is_body : Bool
  pub displayed : Bool
  pub collapsed : Bool
  pub aria_expanded : Option Bool

visible_above : List Element → Bool
visible_above [] = true
visible_above (parent ∷ above) =
    let rest = visible_above above in if parent.is_body then true else parent.displayed && rest

-- `isVisible`
unfoldable pub is_visible : Element → List Element → Bool
unfolding visible_above
is_visible element above = element.displayed && visible_above above

-- A row of the list, as far as `highlight` and `setClicked` see it.
pub record Row : Type 0 where
  pub key : ℕ
  pub visible : Bool
  pub odd : Bool
  pub even : Bool
  pub clicked : Bool

unfoldable pub unclick : Row → Row
unclick row = record row { clicked = false }

unfoldable pub click_key : Option ℕ → Row → Row
click_key none row = row
click_key (some key) row = if row.key == key then record row { clicked = true } else row

-- `setClicked`
unfoldable pub set_clicked : Option ℕ → List Row → List Row
unfolding unclick click_key
set_clicked item rows = map (click_key item) (map unclick rows)

unfoldable pub stripe : ℕ → Row → Row
stripe index row =
    if index % 2 == 0
    then record row { even = false; odd = true }
    else record row { odd = false; even = true }

-- `highlight`, from the index of the next visible row
unfoldable pub highlight_from : ℕ → List Row → List Row
unfolding stripe
highlight_from index [] = []
highlight_from index (row ∷ rows) =
    let shown = highlight_from (suc index) rows in
    let hidden = highlight_from index rows in
    if row.visible then stripe index row ∷ shown else row ∷ hidden

unfoldable pub highlight : List Row → List Row
highlight rows = highlight_from 0 rows

-- The id that `expandTo` looks for.
unfoldable pub object_id : Bytes → Bytes
object_id path = codes "object_" ++ path

-- `pathForItem`
unfoldable pub path_for_item : Bytes → Option Bytes
unfolding start_with
path_for_item id = if start_with id (codes "object_") then some (drop 7 id) else none

-- A click on a row.
pub record Click : Type 0 where
  pub default_prevented : Bool
  pub button : ℕ
  pub meta_key : Bool
  pub ctrl_key : Bool
  pub shift_key : Bool
  pub alt_key : Bool
  -- the address of the link that was clicked, if it is an object's, and of the row's own
  pub target_link : Option Bytes
  pub item_link : Option Bytes

-- What the listener does: the browser's own way, the row alone, or a message to the page.
pub data Clicked : Type 0 where
  ignored : Clicked
  selected : Clicked
  posted : Bytes → Option Bytes → Clicked

unfoldable pub resolved_or : Bytes → Option Bytes → Bytes
resolved_or url none = url
resolved_or url (some href) = href

post_link : (Bytes → Option Bytes) → Bytes → Option Bytes → Option Bytes → Clicked
post_link new_url id (some url) item_link =
    posted (resolved_or url (new_url url)) (path_for_item id)
post_link new_url id none (some url) = posted (resolved_or url (new_url url)) (path_for_item id)
post_link new_url id none none = selected

-- The listener of `enableLinks`, with `new URL` and the id of the row.
unfoldable pub click_item : (Bytes → Option Bytes) → Bytes → Click → Clicked
unfolding post_link resolved_or
click_item new_url id event =
    if event.default_prevented
      || not (event.button == 0)
      || event.meta_key
      || event.ctrl_key
      || event.shift_key
      || event.alt_key
    then ignored
    else post_link new_url id event.target_link event.item_link

-- `toggleItem`, of the item that holds the toggle
unfoldable pub toggle_item : Element → Element
toggle_item item = record item {
  collapsed = not item.collapsed;
  aria_expanded = some item.collapsed;
}

unfoldable pub uncollapse : Element → Element
uncollapse e = if e.is_li then record e { collapsed = false } else e

unfoldable pub is_full_list : Element → Bool
is_full_list e = bytes_eq e.id (codes "full_list")

-- The loop of `expandTo` that opens the items above.
unfoldable pub uncollapse_above : List Element → List Element
unfolding uncollapse is_full_list
uncollapse_above [] = []
uncollapse_above (e ∷ above) =
    let rest = uncollapse_above above in if is_full_list e then e ∷ above else uncollapse e ∷ rest

unfoldable pub set_expanded : Option Bool → Option Bool
set_expanded none = none
set_expanded (some old) = some true

unfoldable pub expand_toggle : Element → Element
unfolding set_expanded
expand_toggle e = if e.is_li then record e { aria_expanded = set_expanded e.aria_expanded } else e

-- The loop of `expandTo` that sets the toggles above.
unfoldable pub expand_toggles_above : List Element → List Element
unfolding expand_toggle is_full_list
expand_toggles_above [] = []
expand_toggles_above (e ∷ above) =
    let rest = expand_toggles_above above in
    if is_full_list e then e ∷ above else expand_toggle e ∷ rest

-- `toggle.setAttribute("aria-expanded", "true")`, for a toggle inside the target
unfoldable pub open_toggle : Element → Element
unfolding set_expanded
open_toggle e = record e { aria_expanded = set_expanded e.aria_expanded }

-- `expandTo`, of the target, the items below it and those above it
unfoldable pub expand_to :
    Element → List Element → List Element → Element × List Element × List Element
unfolding open_toggle uncollapse_above expand_toggles_above
expand_to target below above = (
  open_toggle (record target { collapsed = false }),
  map open_toggle below,
  expand_toggles_above (uncollapse_above above),
)

-- The loop of `clearSearch` over those above the item that was clicked.
unfoldable pub reveal_above : List Element → List Element
unfolding uncollapse is_full_list
reveal_above [] = []
reveal_above (e ∷ above) =
    let rest = reveal_above above in
    if is_full_list e then uncollapse e ∷ above else uncollapse e ∷ rest
