-- ===== src/Docs/Resizer.antt =====
-- `navResizer` of docs/js/app.js: the width that dragging gives the list, and the width that is
-- restored from `sessionStorage.navWidth`. A number of pixels is modelled by the digits that
-- `String` prints of it, which are these for numbers from a millionth to 10 ^ 21.
pub mod Restored
use oauth.Prelude.{
  ℕ, zero, suc, ◌-◌, ◌%◌, List, [], ◌∷◌, ◌++◌, Bool, true, false, Option, none, some, Bytes, ltb,
  ◌==◌, if◌then◌else◌, map,
}
use oauth.Prelude.Ascii.{decimal}
use oauth.Prelude.Decimal.{is_digit, digits_value}
use oauth.Docs.Search.{is_space}

-- The digits behind the point, none for a whole number.
pub record Pixels : Type 0 where
  pub negative : Bool
  pub whole : ℕ
  pub fraction : Bytes

unfoldable pub fraction_text : Bytes → Bytes
fraction_text [] = []
fraction_text (c ∷ digits) = b'.' ∷ c ∷ digits

-- `String(event.pageX)`
unfoldable pub pixels_text : Pixels → Bytes
unfolding fraction_text
pixels_text p =
    let digits = decimal p.whole ++ fraction_text p.fraction in
    if p.negative then b'-' ∷ digits else digits

-- The whole number in front of a text, `none` for NaN.
unfoldable pub parse_digits : Bool → Bytes → Option Pixels
parse_digits negative [] = none
parse_digits negative (c ∷ s) =
    if is_digit c
    then some (record { negative = negative; whole = digits_value 0 (c ∷ s); fraction = [] })
    else none

unfoldable pub parse_signed : Bytes → Option Pixels
parse_signed [] = none
parse_signed (c ∷ s) =
    if c == b'-'
    then parse_digits true s
    else if c == b'+'
    then parse_digits false s
    else parse_digits false (c ∷ s)

-- `parseInt(text, 10)`
unfoldable pub parse_int : Bytes → Option Pixels
unfolding parse_signed is_space
parse_int [] = none
parse_int (c ∷ s) = let rest = parse_int s in if is_space c then rest else parse_signed (c ∷ s)

abbrev least_width : Pixels
least_width = record { negative = false; whole = 200; fraction = [] }

-- `Math.max(200, p)`
unfoldable pub at_least_200 : Pixels → Pixels
at_least_200 p = if p.negative then least_width else if ltb p.whole 200 then least_width else p

-- `sessionStorage.navWidth`, and the width that the style of each `.nav_wrap` has.
pub record Resizer : Type 0 where
  pub nav_width : Option Bytes
  pub nav_wraps : List (Option Pixels)

unfoldable pub set_width : Pixels → List (Option Pixels) → List (Option Pixels)
set_width width nav_wraps = map (λ old. some width) nav_wraps

-- The listener of `pointermove`, with `event.buttons`.
unfoldable pub pointer_move : ℕ → Pixels → Resizer → Resizer
unfolding pixels_text at_least_200 set_width
pointer_move buttons page_x r = if buttons % 2 == 0 then r else record {
  nav_width = some (pixels_text page_x);
  nav_wraps = set_width (at_least_200 page_x) r.nav_wraps;
}

-- "NaNpx" is no width, and leaves the style as it is.
unfoldable pub restore_to : Option Pixels → Resizer → Resizer
unfolding at_least_200 set_width
restore_to none r = r
restore_to (some width) r = record r { nav_wraps = set_width (at_least_200 width) r.nav_wraps }

unfoldable pub restore_from : Option Bytes → Resizer → Resizer
unfolding restore_to parse_int
restore_from none r = r
restore_from (some []) r = r
restore_from (some (c ∷ text)) r = restore_to (parse_int (c ∷ text)) r

-- The end of `navResizer`.
unfoldable pub restore_width : Resizer → Resizer
unfolding restore_from
restore_width r = restore_from r.nav_width r
