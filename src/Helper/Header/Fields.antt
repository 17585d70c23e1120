-- ===== src/Helper/Header/Fields.antt =====
-- What `strip`, `unescape` and the removal of quotes make of a key and of a quoted value.
use oauth.Prelude.{
  ℕ, ◌≡◌, refl, [], ◌∷◌, ◌++◌, false, Bytes, arith, All-append, IsBytes, append-nil, Lacks, none,
  some,
}
use oauth.Helper.Escape.{escape, unescape, decode_hex}
use oauth.Helper.Escape.RoundTrip.{
  All-mono, escape-IsSafe, IsSafe-Lacks, protect_plus_fix, decode_hex-escape, decode_hex_plain,
  decode_hex-nil,
}
use oauth.Helper.Header.{
  is_blank, strip_left, strip_right, first_line, before_quote, quoted_line, sub_quotes, sub_line,
  remove_quotes, field_text,
}
use oauth.Helper.Header.Parts.{IsKey, IsLine, quoted, IsLine-IsBytes, plain_byte}

-- What stripping leaves of a key and of a quoted value.
module _ (c : ℕ) (sound : is_blank c ≡ false) where
  strip_left_sound : (s : Bytes) → strip_left (c ∷ s) ≡ c ∷ s
  unfolding strip_left
  strip_left_sound s = rw sound

  strip_right_sound : (s : Bytes) → strip_right (s ++ c ∷ []) ≡ s ++ c ∷ []
  unfolding strip_right
  strip_right_sound [] = rw sound
  strip_right_sound (d ∷ []) = rw sound
  strip_right_sound (d ∷ e ∷ s) = rw (strip_right, strip_right_sound (e ∷ s))

strip_left-key : (k : Bytes) → IsKey k → strip_left k ≡ k
unfolding strip_left
strip_left-key [] h = refl
strip_left-key (c ∷ k) h = strip_left_sound c (plain_byte c h.0).1 k

strip_right-key : (k : Bytes) → IsKey k → strip_right k ≡ k
unfolding strip_right
strip_right-key [] h = refl
strip_right-key (c ∷ []) h = strip_right_sound c (plain_byte c h.0).1 []
strip_right-key (c ∷ d ∷ k) h = rw (strip_right, strip_right-key (d ∷ k) h.1)

strip_left-space : (k : Bytes) → strip_left (b' ' ∷ k) ≡ strip_left k
unfolding strip_left is_blank
strip_left-space k = refl

quote_sound : is_blank b'"' ≡ false
unfolding is_blank
quote_sound = refl

pub strip-quoted : (v : Bytes) → strip_right (strip_left (quoted v)) ≡ quoted v
unfolding quoted
strip-quoted v =
    rw (strip_left_sound b'"' quote_sound (escape v ++ b'"' ∷ []))
      (strip_right_sound b'"' quote_sound (b'"' ∷ escape v))

-- What unescaping leaves of them.
decode_hex-key : (k : Bytes) → IsKey k → decode_hex k ≡ k
decode_hex-key [] h = decode_hex-nil
decode_hex-key (c ∷ k) h = rw (decode_hex_plain c k (plain_byte c h.0).3, decode_hex-key k h.1)

unescape-key : (k : Bytes) → IsKey k → unescape k ≡ k
unfolding unescape
unescape-key k h =
    rw (protect_plus_fix k (All-mono (λ c p. (plain_byte c p).4) k h)) (decode_hex-key k h)

quoted-Lacks : (v : Bytes) → IsBytes v → Lacks b'+' (quoted v)
unfolding quoted
quoted-Lacks v h = (
  omega arith,
  All-append _ (escape v) (b'"' ∷ []) (IsSafe-Lacks (escape v) (escape-IsSafe v h)).2
      (omega arith, tt),
)

decode_hex_quote : decode_hex (b'"' ∷ []) ≡ b'"' ∷ []
unfolding decode_hex
decode_hex_quote = refl

decode_hex-quoted : (v : Bytes) → IsBytes v → decode_hex (quoted v) ≡ b'"' ∷ v ++ b'"' ∷ []
unfolding quoted
decode_hex-quoted v h = rw (
  decode_hex_plain b'"' (escape v ++ b'"' ∷ []) (omega arith),
  decode_hex-escape v (b'"' ∷ []) h,
  decode_hex_quote,
)

pub unescape-quoted : (v : Bytes) → IsBytes v → unescape (quoted v) ≡ b'"' ∷ v ++ b'"' ∷ []
unfolding unescape
unescape-quoted v h = rw (protect_plus_fix (quoted v) (quoted-Lacks v h)) (decode_hex-quoted v h)

-- What removing the quotes leaves of them.
before_quote-append : (v : Bytes) → before_quote (v ++ b'"' ∷ []) ≡ some v
unfolding before_quote
before_quote-append [] = refl
before_quote-append (c ∷ []) = refl
before_quote-append (c ∷ d ∷ v) = rw (before_quote, before_quote-append (d ∷ v))

pub first_line_all : (s : Bytes) → Lacks 10 s → first_line s ≡ (s, [])
unfolding first_line
first_line_all [] h = refl
first_line_all (c ∷ s) h = ground (arith, first_line_all s h.1)

quoted_line-quoted : (v : Bytes) → quoted_line (b'"' ∷ v ++ b'"' ∷ []) ≡ some v
unfolding quoted_line
quoted_line-quoted v = before_quote-append v

quoted_line-key : (k : Bytes) → IsKey k → quoted_line k ≡ none
unfolding quoted_line
quoted_line-key [] h = refl
quoted_line-key (c ∷ k) h = let other = (plain_byte c h.0).2 in ground arith

remove_quotes-quoted : (v : Bytes) → Lacks 10 v → remove_quotes (b'"' ∷ v ++ b'"' ∷ []) ≡ v
unfolding remove_quotes sub_quotes sub_line
remove_quotes-quoted v h =
    rw
      (
        first_line_all (b'"' ∷ v ++ b'"' ∷ [])
            (omega arith, All-append _ v (b'"' ∷ []) h (omega arith, tt)),
        quoted_line-quoted v,
      )
      (append-nil v)

remove_quotes-key : (k : Bytes) → IsKey k → remove_quotes k ≡ k
unfolding remove_quotes sub_quotes sub_line
remove_quotes-key k h =
    rw (first_line_all k (All-mono (λ c p. (plain_byte c p).5) k h), quoted_line-key k h)

pub field_text-key : (k : Bytes) → IsKey k → field_text k ≡ k
unfolding field_text
field_text-key k h =
    rw (strip_left-key k h, strip_right-key k h, unescape-key k h) (remove_quotes-key k h)

pub field_text-space : (k : Bytes) → IsKey k → field_text (b' ' ∷ k) ≡ k
unfolding field_text
field_text-space k h =
    rw (strip_left-space k, strip_left-key k h, strip_right-key k h, unescape-key k h)
      (remove_quotes-key k h)

pub field_text-quoted : (v : Bytes) → IsLine v → field_text (quoted v) ≡ v
unfolding field_text
field_text-quoted v h =
    rw (strip-quoted v, unescape-quoted v (IsLine-IsBytes v h))
      (remove_quotes-quoted v (All-mono (λ c p. p.1) v h))
