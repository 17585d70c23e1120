-- ===== src/Signature/Base64.antt =====
-- `Base64.encode64(…).chomp.delete("\\n")` of lib/oauth/signature/base.rb. `encode64` breaks its text
-- after every sixty characters, and ends it with a line feed if it is not empty.
use mathlib.Core.List.{flatten}
use oauth.Helper.Escape.RoundTrip.{All-mono}
use oauth.Helper.Header.Parts.{IsLine}
use oauth.Prelude.{
  Bool-cases, inl, inr, ap, ◌∙◌, ℕ, zero, suc, ◌+◌, ◌-◌, ◌*◌, ◌/◌, ◌%◌, ◌<◌, ◌≡◌, refl, List, [],
  ◌∷◌, ◌++◌, Bytes, ltb, ◌==◌, if◌then◌else◌, arith, All, IsBytes, ◌≢◌, All-append,
}

-- The character of six bits.
unfoldable pub sextet : ℕ → ℕ
sextet n =
    if ltb n 26
    then b'A' + n
    else if ltb n 52
    then b'a' + (n - 26)
    else if ltb n 62
    then b'0' + (n - 52)
    else if n == 62
    then b'+'
    else b'/'

-- The groups of four characters.
unfoldable pub quads : Bytes → List Bytes
unfolding sextet
quads [] = []
quads (a ∷ []) = (sextet (a / 4) ∷ sextet (a % 4 * 16) ∷ b'=' ∷ b'=' ∷ []) ∷ []
quads (a ∷ b ∷ []) =
    (sextet (a / 4) ∷ sextet (a % 4 * 16 + b / 16) ∷ sextet (b % 16 * 4) ∷ b'=' ∷ []) ∷ []
quads (a ∷ b ∷ c ∷ s) =
    (sextet (a / 4)
      ∷ sextet (a % 4 * 16 + b / 16)
      ∷ sextet (b % 16 * 4 + c / 64)
      ∷ sextet (c % 64)
      ∷ [])
    ∷ quads s

-- `n` groups stand on the line already.
unfoldable pub wrap : ℕ → List Bytes → Bytes
wrap zero [] = []
wrap (suc n) [] = 10 ∷ []
wrap n (q ∷ qs) =
    let full = q ++ 10 ∷ wrap 0 qs in
    let more = q ++ wrap (suc n) qs in if n == 14 then full else more

unfoldable pub encode64 : Bytes → Bytes
unfolding quads wrap
encode64 s = wrap 0 (quads s)

-- `chomp` of one line end, "\r\n", "\n" or "\r".
unfoldable pub chomp : Bytes → Bytes
chomp [] = []
chomp (c ∷ []) = if c == 10 then [] else if c == 13 then [] else c ∷ []
chomp (c ∷ d ∷ []) =
    if d == 10 then if c == 13 then [] else c ∷ [] else if d == 13 then c ∷ [] else c ∷ d ∷ []
chomp (c ∷ d ∷ e ∷ s) = c ∷ chomp (d ∷ e ∷ s)

-- `delete("\n")`
unfoldable pub delete_feeds : Bytes → Bytes
delete_feeds [] = []
delete_feeds (c ∷ s) = if c == 10 then delete_feeds s else c ∷ delete_feeds s

unfoldable pub compact64 : Bytes → Bytes
unfolding encode64 chomp delete_feeds
compact64 s = delete_feeds (chomp (encode64 s))

-- The groups hold bytes, and no line end.
sextet-ne : (n : ℕ) → n < 64 → (sextet n ≢ 10) × (sextet n ≢ 13) × (sextet n < 256)
unfolding sextet
sextet-ne n h = ground arith

abbrev NoEnd : Bytes → Type 0
NoEnd = All (λ c. (c ≢ 10) × (c ≢ 13) × (c < 256))

quads-NoEnd : (s : Bytes) → IsBytes s → All (λ q. NoEnd q) (quads s)
unfolding quads
quads-NoEnd [] h = tt
quads-NoEnd (a ∷ []) h =
    ((sextet-ne (a / 4) (omega arith), (sextet-ne (a % 4 * 16) (omega arith), omega arith)), tt)
quads-NoEnd (a ∷ b ∷ []) h = (
  (
    sextet-ne (a / 4) (omega arith),
    (
      sextet-ne (a % 4 * 16 + b / 16) (omega arith),
      (sextet-ne (b % 16 * 4) (omega arith), omega arith),
    ),
  ),
  tt,
)
quads-NoEnd (a ∷ b ∷ c ∷ s) h = (
  (
    sextet-ne (a / 4) (omega arith),
    (
      sextet-ne (a % 4 * 16 + b / 16) (omega arith),
      (sextet-ne (b % 16 * 4 + c / 64) (omega arith), (sextet-ne (c % 64) (omega arith), tt)),
    ),
  ),
  quads-NoEnd s h.1.1.1,
)

delete_feeds-append : (s t : Bytes) → NoEnd s → delete_feeds (s ++ t) ≡ s ++ delete_feeds t
unfolding delete_feeds
delete_feeds-append [] t h = refl
delete_feeds-append (c ∷ s) t h = ground (arith, delete_feeds-append s t h.1)

delete_feeds-feed : (t : Bytes) → delete_feeds (10 ∷ t) ≡ delete_feeds t
unfolding delete_feeds
delete_feeds-feed t = refl

abbrev NoReturn : Bytes → Type 0
NoReturn = All (λ c. c ≢ 13)

delete_feeds-chomp : (t : Bytes) → NoReturn t → delete_feeds (chomp t) ≡ delete_feeds t
unfolding delete_feeds chomp
delete_feeds-chomp [] h = refl
delete_feeds-chomp (c ∷ []) h = ground arith
delete_feeds-chomp (c ∷ d ∷ []) h = ground arith
delete_feeds-chomp (c ∷ d ∷ e ∷ t) h = ground (arith, delete_feeds-chomp (d ∷ e ∷ t) h.1)

NoEnd-NoReturn : (s : Bytes) → NoEnd s → NoReturn s
NoEnd-NoReturn [] h = tt
NoEnd-NoReturn (c ∷ s) h = (h.0.1, NoEnd-NoReturn s h.1)

wrap-NoReturn : (n : ℕ) (qs : List Bytes) → All (λ q. NoEnd q) qs → NoReturn (wrap n qs)
unfolding wrap
wrap-NoReturn zero [] h = tt
wrap-NoReturn (suc n) [] h = omega arith
wrap-NoReturn n (q ∷ qs) h =
    let front = NoEnd-NoReturn q h.0 in
    elim (Bool-cases (n == 14)) [
      | inl full ↦
          rw full (All-append _ q (10 ∷ wrap 0 qs) front (omega arith, wrap-NoReturn 0 qs h.1))
      | inr more ↦ rw more (All-append _ q (wrap (suc n) qs) front (wrap-NoReturn (suc n) qs h.1))
    ]

delete_feeds-wrap :
    (n : ℕ) (qs : List Bytes) → All (λ q. NoEnd q) qs → delete_feeds (wrap n qs) ≡ flatten qs
unfolding wrap flatten
delete_feeds-wrap zero [] h = unfold delete_feeds in refl
delete_feeds-wrap (suc n) [] h = unfold delete_feeds in refl
delete_feeds-wrap n (q ∷ qs) h = elim (Bool-cases (n == 14)) [
  | inl full ↦
      rw (full, delete_feeds-append q (10 ∷ wrap 0 qs) h.0, delete_feeds-feed (wrap 0 qs))
        (ap (q ++◌) (delete_feeds-wrap 0 qs h.1))
  | inr more ↦
      rw (more, delete_feeds-append q (wrap (suc n) qs) h.0)
        (ap (q ++◌) (delete_feeds-wrap (suc n) qs h.1))
]

-- The signature text of a digest of bytes is its base64 text, on one line.
pub compact64-quads : (s : Bytes) → IsBytes s → compact64 s ≡ flatten (quads s)
unfolding compact64 encode64
compact64-quads s h =
    let groups = quads-NoEnd s h in
    delete_feeds-chomp (wrap 0 (quads s)) (wrap-NoReturn 0 (quads s) groups)
    ∙ delete_feeds-wrap 0 (quads s) groups

IsLine-flatten : (qs : List Bytes) → All (λ q. NoEnd q) qs → IsLine (flatten qs)
unfolding flatten
IsLine-flatten [] h = tt
IsLine-flatten (q ∷ qs) h =
    All-append _ q (flatten qs) (All-mono (λ c k. (k.2, k.0)) q h.0) (IsLine-flatten qs h.1)

-- It holds bytes, and no line feed.
pub compact64-IsLine : (s : Bytes) → IsBytes s → IsLine (compact64 s)
compact64-IsLine s h = rw (compact64-quads s h) (IsLine-flatten (quads s) (quads-NoEnd s h))
