-- ===== src/Docs/Search/Pattern.antt =====
-- `RegExp.escape` against a reader of literal patterns, by the grammar of ECMAScript.
use oauth.Prelude.{
  ℕ, ◌≡◌, refl, [], ◌∷◌, Bool, true, false, ◌&&◌, ◌||◌, leb, Option, none, some, inl, inr,
  Bool-cases, Bytes, if◌then◌else◌, arith, ◌==◌,
}
use oauth.Docs.Search.{regexp_escape, is_special, is_space}

-- The characters of the grammar's `SyntaxCharacter`, which are operators.
unfoldable pub is_syntax_character : ℕ → Bool
is_syntax_character c =
    (c == b'^')
    || (c == b'$')
    || (c == 92)
    || (c == b'.')
    || (c == b'*')
    || (c == b'+')
    || (c == b'?')
    || (c == b'(')
    || (c == b')')
    || (c == b'[')
    || (c == b']')
    || (c == b'{')
    || (c == b'}')
    || (c == b'|')

-- The characters that stand for something else behind a backslash: those of words.
unfoldable pub is_word_character : ℕ → Bool
is_word_character c =
    (leb b'a' c && leb c b'z')
    || (leb b'A' c && leb c b'Z')
    || (leb b'0' c && leb c b'9')
    || (c == b'_')

consed : ℕ → Option Bytes → Option Bytes
consed c none = none
consed c (some text) = some (c ∷ text)

-- The one text that a pattern without operators stands for, after a backslash or not.
unfoldable pub literal_from : Bool → Bytes → Option Bytes
unfolding consed
literal_from true [] = none
literal_from false [] = some []
literal_from true (c ∷ pattern) =
    let rest = literal_from false pattern in if is_word_character c then none else consed c rest
literal_from false (c ∷ pattern) =
    let escaped = literal_from true pattern in
    let ordinary = literal_from false pattern in
    if c == 92 then escaped else if is_syntax_character c then none else consed c ordinary

plain_character :
    (c : ℕ) → is_special c ≡ false → ((c == 92) ≡ false) × (is_syntax_character c ≡ false)
unfolding is_special is_space is_syntax_character
plain_character c h = (ground arith, ground arith)

-- What is escaped is none of the words.
special-word : (c : ℕ) → is_special c ≡ true → is_word_character c ≡ false
unfolding is_special is_space is_word_character
special-word c h = ground arith

-- An escaped search string, read by the grammar of patterns, stands for itself, character by
-- character: it holds no operator of the grammar, and nothing that a backslash makes a class.
pub literal-regexp_escape : (text : Bytes) → literal_from false (regexp_escape text) ≡ some text
unfolding literal_from regexp_escape consed
literal-regexp_escape [] = refl
literal-regexp_escape (c ∷ text) = elim (Bool-cases (is_special c)) [
  | inl special ↦ rw (special, special-word c special, literal-regexp_escape text) refl
  | inr plain ↦
      let (no_backslash, no_operator) = plain_character c plain in
      rw (plain, no_operator, no_backslash, literal-regexp_escape text) refl
]
