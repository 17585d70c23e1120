-- ===== src/Docs/Resizer/Restored.antt =====
-- The width that a page restores, against the one that was dragged.
use oauth.Prelude.{
  ℕ, ◌≡◌, refl, ap, ◌∙◌, ◌≤◌, List, [], ◌∷◌, ◌++◌, Bool, true, false, Option, some, Bytes, arith,
  ◌%◌, ◌==◌,
}
use oauth.Prelude.Ascii.{decimal}
use oauth.Prelude.Decimal.{
  is_digit, digits_value, Digit, NoDigit, digits_value-decimal, decimal-Digit,
}
use oauth.Docs.Search.{is_space}
use oauth.Docs.Resizer.{
  Pixels, fraction_text, pixels_text, parse_digits, parse_signed, parse_int, at_least_200, Resizer,
  set_width, pointer_move, restore_width, restore_to, restore_from,
}

-- The whole number of pixels.
unfoldable pub truncated : Pixels → Pixels
truncated p = record p { fraction = [] }

abbrev whole_pixels : Bool → ℕ → Option Pixels
whole_pixels negative whole = some (record { negative = negative; whole = whole; fraction = [] })

digit-others :
    (c : ℕ)
    → is_digit c ≡ true
    → (is_space c ≡ false) × ((c == b'-') ≡ false) × ((c == b'+') ≡ false)
unfolding is_digit is_space
digit-others c h = ground arith

parse_int-Digit :
    (text : Bytes) → Digit text → parse_int text ≡ whole_pixels false (digits_value 0 text)
unfolding parse_int parse_signed parse_digits
parse_int-Digit [] h = elim h [ ]
parse_int-Digit (c ∷ text) h =
    let (space, minus, plus) = digit-others c h in rw (space, minus, plus, h) refl

parse_int-minus :
    (text : Bytes) → Digit text → parse_int (b'-' ∷ text) ≡ whole_pixels true (digits_value 0 text)
unfolding parse_int parse_signed parse_digits is_space
parse_int-minus [] h = elim h [ ]
parse_int-minus (c ∷ text) h = rw h refl

fraction_text-NoDigit : (fraction : Bytes) → NoDigit (fraction_text fraction)
unfolding fraction_text is_digit
fraction_text-NoDigit [] = tt
fraction_text-NoDigit (c ∷ digits) = refl

-- The digits in front, as a number.
digits_value-text :
    (negative : Bool) (whole : ℕ) (fraction : Bytes)
    → whole_pixels negative (digits_value 0 (decimal whole ++ fraction_text fraction))
      ≡ whole_pixels negative whole
digits_value-text negative whole fraction =
    ap (whole_pixels negative)
      (digits_value-decimal whole (fraction_text fraction) (fraction_text-NoDigit fraction))

parse_int-fields :
    (negative : Bool) (whole : ℕ) (fraction : Bytes)
    → parse_int (pixels_text (record { negative = negative; whole = whole; fraction = fraction }))
      ≡ whole_pixels negative whole
unfolding pixels_text
parse_int-fields true whole fraction =
    parse_int-minus (decimal whole ++ fraction_text fraction)
      (decimal-Digit whole (fraction_text fraction))
    ∙ digits_value-text true whole fraction
parse_int-fields false whole fraction =
    parse_int-Digit (decimal whole ++ fraction_text fraction)
      (decimal-Digit whole (fraction_text fraction))
    ∙ digits_value-text false whole fraction

parse_int-pixels_text : (p : Pixels) → parse_int (pixels_text p) ≡ some (truncated p)
unfolding truncated
parse_int-pixels_text p = parse_int-fields p.negative p.whole p.fraction

at_least_200-truncated : (p : Pixels) → at_least_200 (truncated p) ≡ truncated (at_least_200 p)
unfolding at_least_200 truncated
at_least_200-truncated p = ground arith

restore_from-parsed :
    (text : Bytes) (width : Pixels) (r : Resizer)
    → parse_int text ≡ some width
    → (restore_from (some text) r).nav_wraps ≡ set_width (at_least_200 width) r.nav_wraps
unfolding restore_from restore_to parse_int
restore_from-parsed [] width r e = cc
restore_from-parsed (c ∷ text) width r e = ap (λ o. (restore_to o r).nav_wraps) e

pointer_move-pressed :
    (buttons : ℕ) (page_x : Pixels) (r : Resizer)
    → buttons % 2 ≡ 1
    → pointer_move buttons page_x r ≡ record {
      nav_width = some (pixels_text page_x);
      nav_wraps = set_width (at_least_200 page_x) r.nav_wraps;
    }
unfolding pointer_move
pointer_move-pressed buttons page_x r pressed =
    let odd : (buttons % 2 == 0) ≡ false = ground arith in rw odd refl

-- A page that is opened after dragging, whatever widths its style sheet gives, gets the whole number
-- of pixels of the width that dragging gave the list, which is never below 200.
pub restore_width-pointer_move :
    (buttons : ℕ) (page_x : Pixels) (r : Resizer) (opened : List (Option Pixels))
    → buttons % 2 ≡ 1
    → ((pointer_move buttons page_x r).nav_wraps ≡ set_width (at_least_200 page_x) r.nav_wraps)
      × ((restore_width (record (pointer_move buttons page_x r) { nav_wraps = opened })).nav_wraps
          ≡ set_width (truncated (at_least_200 page_x)) opened)
      × ((at_least_200 page_x).negative ≡ false)
      × (200 ≤ (at_least_200 page_x).whole)
unfolding restore_width at_least_200
restore_width-pointer_move buttons page_x r opened pressed =
    rw (pointer_move-pressed buttons page_x r pressed) (
      refl,
      restore_from-parsed (pixels_text page_x) (truncated page_x)
            (record { nav_width = some (pixels_text page_x); nav_wraps = opened })
            (parse_int-pixels_text page_x)
          ∙ ap (λ w. set_width w opened) (at_least_200-truncated page_x),
      ground arith,
      ground arith,
    )
