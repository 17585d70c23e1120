-- ===== src/Helper/Escape/RoundTrip.antt =====
-- What `escape` and `unescape` of lib/oauth/helper.rb promise together.
use mathlib.Core.Path.{◌≡⟨◌⟩◌, ◌∎}
use oauth.Prelude.{
  ap, sym, ℕ, ◌+◌, ◌*◌, ◌/◌, ◌%◌, ◌<◌, ◌≡◌, ◌≢◌, refl, true, false, ◌∷◌, [], ◌++◌, append_assoc,
  append-nil, arith, Bytes, All, All-append, Lacks, IsBytes, Bool-cases, inl, inr,
}
use oauth.Helper.Escape.{
  is_reserved, hex_digit, hex_value, is_hex, escape_byte, escape, protect_plus, decode_hex,
  unescape,
}

-- A byte that the escaped text may hold: an unreserved one, or the percent sign.
abbrev pub IsSafe : ℕ → Type 0
IsSafe c = (c ≢ b'&') × (c ≢ b'=') × (c ≢ b'+') × (c ≢ b',') × (c ≢ b'"') × (c ≢ b' ')

hex_digit-IsSafe : (d : ℕ) → d < 16 → IsSafe (hex_digit d)
unfolding hex_digit
hex_digit-IsSafe d h = ground arith

is_reserved-IsSafe : (c : ℕ) → is_reserved c ≡ false → IsSafe c
unfolding is_reserved
is_reserved-IsSafe c h = ground arith

escape_byte-IsSafe : (b : ℕ) → b < 256 → All IsSafe (escape_byte b)
unfolding escape_byte
escape_byte-IsSafe b h = ground (
  arith,
  is_reserved-IsSafe b,
  hex_digit-IsSafe (b / 16) (omega arith),
  hex_digit-IsSafe (b % 16) (omega arith),
)

-- No separator, quote, plus sign or space is left in an escaped text.
pub escape-IsSafe : (s : Bytes) → IsBytes s → All IsSafe (escape s)
unfolding escape
escape-IsSafe [] h = tt
escape-IsSafe (b ∷ s) h =
    All-append IsSafe (escape_byte b) (escape s) (escape_byte-IsSafe b h.0) (escape-IsSafe s h.1)

module _ {P Q : ℕ → Type 0} (weaken : (c : ℕ) → P c → Q c) where
  pub All-mono : (s : Bytes) → All P s → All Q s
  All-mono [] h = tt
  All-mono (c ∷ s) h = (weaken c h.0, All-mono s h.1)

pub IsSafe-Lacks : (s : Bytes) → All IsSafe s → Lacks b'&' s × Lacks b'=' s × Lacks b'+' s
IsSafe-Lacks s h = (All-mono (λ c k. k.0) s h, All-mono (λ c k. k.1) s h, All-mono (λ c k. k.2) s h)

pub protect_plus_fix : (s : Bytes) → Lacks b'+' s → protect_plus s ≡ s
unfolding protect_plus
protect_plus_fix [] h = refl
protect_plus_fix (c ∷ s) h = ground (arith, protect_plus_fix s h.1)

pub decode_hex_plain : (c : ℕ) (s : Bytes) → c ≢ b'%' → decode_hex (c ∷ s) ≡ c ∷ decode_hex s
unfolding decode_hex
decode_hex_plain c [] h = refl
decode_hex_plain c (a ∷ []) h = refl
decode_hex_plain c (a ∷ b ∷ s) h = ground arith

hex_value-hex_digit :
    (d : ℕ) → d < 16 → (hex_value (hex_digit d) ≡ d) × (is_hex (hex_digit d) ≡ true)
unfolding hex_value hex_digit is_hex
hex_value-hex_digit d h = ground arith

decode_hex_triplet :
    (hi lo : ℕ) (s : Bytes)
    → hi < 16
    → lo < 16
    → decode_hex (b'%' ∷ hex_digit hi ∷ hex_digit lo ∷ s) ≡ (hi * 16 + lo) ∷ decode_hex s
unfolding decode_hex
decode_hex_triplet hi lo s h k =
    let (p, q) = hex_value-hex_digit hi h in
    let (r, t) = hex_value-hex_digit lo k in rw (p, q, r, t)

is_reserved_percent : is_reserved b'%' ≡ true
unfolding is_reserved
is_reserved_percent = refl

percent_of_plain : (b : ℕ) → is_reserved b ≡ false → b ≢ b'%'
percent_of_plain b h e = cc (is_reserved_percent)

rejoin : (b : ℕ) → b / 16 * 16 + b % 16 ≡ b
rejoin b = omega arith

decode_hex-escape_byte :
    (b : ℕ) (s : Bytes) → b < 256 → decode_hex (escape_byte b ++ s) ≡ b ∷ decode_hex s
unfolding escape_byte
decode_hex-escape_byte b s h = elim (Bool-cases (is_reserved b)) [
  | inl reserved ↦
      rw (reserved, decode_hex_triplet (b / 16) (b % 16) s (omega arith) (omega arith), rejoin) refl
  | inr plain ↦ rw plain (decode_hex_plain b s (percent_of_plain b plain))
]

pub decode_hex-escape : (s t : Bytes) → IsBytes s → decode_hex (escape s ++ t) ≡ s ++ decode_hex t
unfolding escape
decode_hex-escape [] t h = refl
decode_hex-escape (b ∷ s) t h =
    rw (append_assoc, decode_hex-escape_byte b (escape s ++ t) h.0, decode_hex-escape s t h.1)

pub decode_hex-nil : decode_hex [] ≡ []
unfolding decode_hex
decode_hex-nil = refl

decoded : (s : Bytes) → IsBytes s → decode_hex (escape s) ≡ s
decoded s h =
    decode_hex (escape s)
    ≡⟨ ap decode_hex (sym (append-nil (escape s))) ⟩ decode_hex (escape s ++ [])
    ≡⟨ decode_hex-escape s [] h ⟩ s ++ decode_hex []
    ≡⟨ (rw (decode_hex-nil, append-nil)) ⟩ s ∎

-- Unescaping an escaped string of bytes gives it back.
pub unescape-escape : (s : Bytes) → IsBytes s → unescape (escape s) ≡ s
unfolding unescape
unescape-escape s h =
    rw (protect_plus_fix (escape s) (IsSafe-Lacks (escape s) (escape-IsSafe s h)).2) (decoded s h)

pub escape_inj : (s t : Bytes) → IsBytes s → IsBytes t → escape s ≡ escape t → s ≡ t
escape_inj s t hs ht e = cc (unescape-escape s hs, unescape-escape t ht)
