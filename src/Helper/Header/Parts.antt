-- ===== src/Helper/Header/Parts.antt =====
-- What splitting gives of a header: its keys, and its values in quotes.
use mathlib.Core.List.{append_assoc}
use oauth.Prelude.{
  ℕ, ◌≡◌, ◌≢◌, refl, List, [], ◌∷◌, ◌++◌, true, false, Bytes, codes, map, arith, All, All-append,
  IsBytes, ◌<◌,
}
use oauth.Prelude.Split.{join-singleton, split_by, join, NoSep, split_by-cons, split_by-part}
use oauth.Params.{Params}
use oauth.Helper.Escape.{is_reserved, escape}
use oauth.Helper.Escape.RoundTrip.{IsSafe, All-mono, escape-IsSafe}
use oauth.Helper.Header.{is_separator, is_blank, drop_trailing, is_odd, header_field}

-- A key of unreserved bytes, as every OAuth parameter has.
abbrev pub IsKey : Bytes → Type 0
IsKey = All (λ c. is_reserved c ≡ false)

-- A value whose bytes hold no line feed.
abbrev pub IsLine : Bytes → Type 0
IsLine = All (λ c. (c < 256) × (c ≢ 10))

abbrev pub KeyLines : Params Bytes → Type 0
KeyLines = All (λ p. IsKey p.0 × IsLine p.1)

abbrev pub KeyBytes : Params Bytes → Type 0
KeyBytes = All (λ p. IsKey p.0 × IsBytes p.1)

-- A value as the header shows it.
unfoldable pub quoted : Bytes → Bytes
quoted v = b'"' ∷ escape v ++ b'"' ∷ []

pub IsLine-IsBytes : (v : Bytes) → IsLine v → IsBytes v
IsLine-IsBytes = All-mono (λ c h. h.0)

pub KeyLines-KeyBytes : (ps : Params Bytes) → KeyLines ps → KeyBytes ps
KeyLines-KeyBytes [] h = tt
KeyLines-KeyBytes ((k, v) ∷ ps) h = ((h.0.0, IsLine-IsBytes v h.0.1), KeyLines-KeyBytes ps h.1)

pub plain_byte :
    (c : ℕ)
    → is_reserved c ≡ false
    → (is_separator c ≡ false)
      × (is_blank c ≡ false)
      × (c ≢ b'"')
      × (c ≢ b'%')
      × (c ≢ b'+')
      × (c ≢ 10)
unfolding is_reserved is_separator is_blank
plain_byte c h = ground arith

safe_byte : (c : ℕ) → IsSafe c → is_separator c ≡ false
unfolding is_separator
safe_byte c h = ground arith

quoted-NoSep : (v : Bytes) → IsBytes v → NoSep is_separator (quoted v)
unfolding quoted is_separator
quoted-NoSep v h = (
  refl,
  All-append _ (escape v) (b'"' ∷ []) (All-mono safe_byte (escape v) (escape-IsSafe v h))
      (refl, tt),
)

pub key-NoSep : (k : Bytes) → IsKey k → NoSep is_separator k
key-NoSep k h = All-mono (λ c p. (plain_byte c p).0) k h

-- The parts behind the first parameter: each key stands behind a space.
unfoldable pub tail_parts : Params Bytes → List Bytes
tail_parts [] = []
tail_parts ((k, v) ∷ ps) = (b' ' ∷ k) ∷ quoted v ∷ tail_parts ps

space-join :
    (k v : Bytes) (fs : List Bytes)
    → b' ' ∷ join (codes ", ") (header_field (k, v) ∷ fs)
      ≡ join (codes ", ") (header_field (b' ' ∷ k, v) ∷ fs)
unfolding join header_field
space-join k v [] = refl
space-join k v (f ∷ fs) = refl

header_field-quoted : (k v : Bytes) → header_field (k, v) ≡ k ++ b'=' ∷ quoted v
unfolding header_field quoted
header_field-quoted k v = refl

join-header_field :
    (k v : Bytes) (f : Bytes) (fs : List Bytes)
    → join (codes ", ") (header_field (k, v) ∷ f ∷ fs)
      ≡ k ++ b'=' ∷ (quoted v ++ b',' ∷ (b' ' ∷ join (codes ", ") (f ∷ fs)))
unfolding join
join-header_field k v f fs = rw (header_field-quoted k v) (append_assoc k (b'=' ∷ quoted v) _)

separator_eq : is_separator b'=' ≡ true
unfolding is_separator
separator_eq = refl

separator_comma : is_separator b',' ≡ true
unfolding is_separator
separator_comma = refl

space-NoSep : is_separator b' ' ≡ false
unfolding is_separator
space-NoSep = refl

pub split-fields :
    (k v : Bytes) (ps : Params Bytes)
    → NoSep is_separator k
    → IsBytes v
    → KeyBytes ps
    → split_by is_separator (join (codes ", ") (header_field (k, v) ∷ map header_field ps))
      ≡ k ∷ quoted v ∷ tail_parts ps
unfolding tail_parts
split-fields k v [] hk hv hp = rw (
  join-singleton (codes ", ") (header_field (k, v)),
  header_field-quoted k v,
  split_by-cons is_separator k (quoted v) b'=' hk separator_eq,
  split_by-part is_separator (quoted v) (quoted-NoSep v hv),
)
split-fields k v ((j, w) ∷ ps) hk hv hp =
    let rest = join (codes ", ") (header_field (j, w) ∷ map header_field ps) in
    rw (
      join-header_field k v (header_field (j, w)) (map header_field ps),
      split_by-cons is_separator k (quoted v ++ b',' ∷ (b' ' ∷ rest)) b'=' hk separator_eq,
      split_by-cons is_separator (quoted v) (b' ' ∷ rest) b',' (quoted-NoSep v hv) separator_comma,
      space-join j w (map header_field ps),
      split-fields (b' ' ∷ j) w ps (space-NoSep, key-NoSep j hp.0.0) hp.0.1 hp.1,
    )

-- `split` keeps all parts, since the last one is in quotes.
pub drop_trailing-parts :
    (k v : Bytes) (ps : Params Bytes)
    → drop_trailing (k ∷ quoted v ∷ tail_parts ps) ≡ k ∷ quoted v ∷ tail_parts ps
unfolding drop_trailing tail_parts quoted
drop_trailing-parts [] v [] = refl
drop_trailing-parts (c ∷ k) v [] = refl
drop_trailing-parts [] v ((j, w) ∷ ps) = rw (drop_trailing-parts (b' ' ∷ j) w ps)
drop_trailing-parts (c ∷ k) v ((j, w) ∷ ps) = rw (drop_trailing-parts (b' ' ∷ j) w ps)

pub is_odd-tail_parts : (ps : Params Bytes) → is_odd (tail_parts ps) ≡ false
unfolding is_odd tail_parts
is_odd-tail_parts [] = refl
is_odd-tail_parts (p ∷ ps) = rw (is_odd-tail_parts ps)
