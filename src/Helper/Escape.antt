-- ===== src/Helper/Escape.antt =====
-- `escape`, `_escape` and `unescape` of lib/oauth/helper.rb, on the bytes of a string, and
-- RESERVED_CHARACTERS of lib/oauth/oauth.rb.
pub mod RoundTrip
use oauth.Prelude.{
  ℕ, ◌+◌, ◌-◌, ◌*◌, ◌/◌, ◌%◌, Bool, true, false, not, ◌&&◌, ◌||◌, List, [], ◌∷◌, ◌++◌, flat_map,
  Bytes, leb, ltb, ◌==◌, if◌then◌else◌,
}

abbrev in_range : ℕ → ℕ → ℕ → Bool
in_range lo hi c = leb lo c && leb c hi

-- A byte that /[^a-zA-Z0-9\-._~]/ matches.
unfoldable pub is_reserved : ℕ → Bool
is_reserved c = not (
    in_range b'a' b'z' c
    || in_range b'A' b'Z' c
    || in_range b'0' b'9' c
    || c == b'-'
    || c == b'.'
    || c == b'_'
    || c == b'~')

-- A digit of "%02X".
unfoldable pub hex_digit : ℕ → ℕ
hex_digit d = if ltb d 10 then b'0' + d else b'A' + (d - 10)

unfoldable pub escape_byte : ℕ → Bytes
unfolding is_reserved hex_digit
escape_byte b =
    if is_reserved b then b'%' ∷ hex_digit (b / 16) ∷ hex_digit (b % 16) ∷ [] else b ∷ []

unfoldable pub escape : Bytes → Bytes
unfolding escape_byte flat_map
escape = flat_map escape_byte

-- `gsub("+", "%2B")`
unfoldable pub protect_plus : Bytes → Bytes
unfolding flat_map
protect_plus = flat_map (λ c. if c == b'+' then b'%' ∷ b'2' ∷ b'B' ∷ [] else c ∷ [])

unfoldable pub is_hex : ℕ → Bool
is_hex c = in_range b'0' b'9' c || in_range b'A' b'F' c || in_range b'a' b'f' c

-- `to_i(16)` of one digit.
unfoldable pub hex_value : ℕ → ℕ
hex_value c = if leb c b'9' then c - b'0' else if leb c b'F' then c - b'A' + 10 else c - b'a' + 10

-- `gsub(/%([0-9A-Fa-f]{2})/)`: matches are taken from the left and do not overlap.
unfoldable pub decode_hex : Bytes → Bytes
unfolding is_hex hex_value
decode_hex [] = []
decode_hex (a ∷ []) = a ∷ []
decode_hex (a ∷ b ∷ []) = a ∷ b ∷ []
decode_hex (a ∷ b ∷ c ∷ s) =
    let decoded = (hex_value b * 16 + hex_value c) ∷ decode_hex s in
    let kept = a ∷ decode_hex (b ∷ c ∷ s) in
    if a == b'%' && is_hex b && is_hex c then decoded else kept

unfoldable pub unescape : Bytes → Bytes
unfolding protect_plus decode_hex
unescape value = decode_hex (protect_plus value)
