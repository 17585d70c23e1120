-- ===== src/Helper/Header/LineFeed.antt =====
-- A value with a line feed is not read back: it keeps its quotes.
use mathlib.Core.List.{append_assoc}
use oauth.Prelude.{
  ◌≡◌, ◌≢◌, refl, ◌∙◌, ap, [], ◌∷◌, ◌++◌, Bytes, map, arith, All, All-append, IsBytes, Lacks, none,
  ◌<◌,
}
use oauth.Params.{Params}
use oauth.Outcome.{Outcome, ok}
use oauth.Helper.Escape.RoundTrip.{All-mono}
use oauth.Helper.Header.{
  first_line, before_quote, quoted_line, sub_quotes, sub_line, remove_quotes, field_text, hash_of,
  parse_header, header_text,
}
use oauth.Helper.Header.Parts.{IsKey, quoted, tail_parts}
use oauth.Helper.Header.Fields.{unescape-quoted, strip-quoted, field_text-key, first_line_all}
use oauth.Helper.Header.RoundTrip.{parts-header_text, parse_parts-ok, is_odd-parts}

-- A text of bytes without a line feed or a quote.
abbrev pub IsPlain : Bytes → Type 0
IsPlain = All (λ c. (c < 256) × (c ≢ 10) × (c ≢ b'"'))

before_quote-plain : (s : Bytes) → IsPlain s → before_quote s ≡ none
unfolding before_quote
before_quote-plain [] h = refl
before_quote-plain (c ∷ []) h = let other = h.0.2 in ground arith
before_quote-plain (c ∷ d ∷ s) h = rw (before_quote, before_quote-plain (d ∷ s) h.1)

quoted_line-plain : (s : Bytes) → IsPlain s → quoted_line (b'"' ∷ s) ≡ none
unfolding quoted_line
quoted_line-plain s h = before_quote-plain s h

quoted_line-last : (s : Bytes) → IsPlain s → quoted_line (s ++ b'"' ∷ []) ≡ none
unfolding quoted_line before_quote
quoted_line-last [] h = refl
quoted_line-last (c ∷ s) h = let other = h.0.2 in ground arith

first_line_feed : (s t : Bytes) → Lacks 10 s → first_line (s ++ 10 ∷ t) ≡ (s, 10 ∷ t)
unfolding first_line
first_line_feed [] t h = refl
first_line_feed (c ∷ s) t h = ground (arith, first_line_feed s t h.1)

feedless : (s : Bytes) → IsPlain s → Lacks 10 s
feedless = All-mono (λ c h. h.1)

-- Neither line stands in quotes.
remove_quotes-line_feed :
    (a b : Bytes)
    → IsPlain a
    → IsPlain b
    → remove_quotes (b'"' ∷ a ++ 10 ∷ (b ++ b'"' ∷ [])) ≡ b'"' ∷ a ++ 10 ∷ (b ++ b'"' ∷ [])
unfolding remove_quotes sub_quotes sub_line
remove_quotes-line_feed a b ha hb = rw (
  first_line_feed (b'"' ∷ a) (b ++ b'"' ∷ []) (omega arith, feedless a ha),
  quoted_line-plain a ha,
  first_line_all (b ++ b'"' ∷ []) (All-append _ b (b'"' ∷ []) (feedless b hb) (omega arith, tt)),
  quoted_line-last b hb,
)

bytes_around : (a b : Bytes) → IsPlain a → IsPlain b → IsBytes (a ++ 10 ∷ b)
bytes_around a b ha hb =
    All-append _ a (10 ∷ b) (All-mono (λ c h. h.0) a ha) (omega arith, All-mono (λ c h. h.0) b hb)

field_text-line_feed :
    (a b : Bytes)
    → IsPlain a
    → IsPlain b
    → field_text (quoted (a ++ 10 ∷ b)) ≡ b'"' ∷ (a ++ 10 ∷ b) ++ b'"' ∷ []
unfolding field_text
field_text-line_feed a b ha hb =
    let assoc = append_assoc a (10 ∷ b) (b'"' ∷ []) in
    rw (strip-quoted (a ++ 10 ∷ b), unescape-quoted (a ++ 10 ∷ b) (bytes_around a b ha hb))
      (rw assoc (remove_quotes-line_feed a b ha hb))

parts_text :
    (k a b : Bytes)
    → IsKey k
    → IsPlain a
    → IsPlain b
    → map field_text (k ∷ quoted (a ++ 10 ∷ b) ∷ tail_parts [])
      ≡ k ∷ (b'"' ∷ (a ++ 10 ∷ b) ++ b'"' ∷ []) ∷ []
unfolding tail_parts
parts_text k a b hk ha hb = rw (field_text-key k hk, field_text-line_feed a b ha hb)

one_pair :
    (k v : Bytes)
    → ◌≡◌ {A = Outcome (Params Bytes)} (ok (hash_of (k ∷ v ∷ []) [])) (ok ((k, v) ∷ []))
unfolding hash_of
one_pair k v = refl

-- A value with one line feed and no quote comes back with the quotes that the header put round it,
-- so it is not the value that was sent.
pub parse_header-line_feed :
    (k a b : Bytes)
    → IsKey k
    → IsPlain a
    → IsPlain b
    → parse_header (header_text none ((k, a ++ 10 ∷ b) ∷ []))
      ≡ ok ((k, b'"' ∷ (a ++ 10 ∷ b) ++ b'"' ∷ []) ∷ [])
parse_header-line_feed k a b hk ha hb =
    let v = a ++ 10 ∷ b in
    parts-header_text k v [] ((hk, bytes_around a b ha hb), tt)
    ∙ parse_parts-ok (k ∷ quoted v ∷ tail_parts []) (is_odd-parts k (quoted v) [])
    ∙ ap (λ parts. ok (hash_of parts [])) (parts_text k a b hk ha hb)
    ∙ one_pair k (b'"' ∷ v ++ b'"' ∷ [])
