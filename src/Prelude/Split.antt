-- ===== src/Prelude/Split.antt =====
-- Texts that are cut at their first separator.
use Prim.Native.Nat.{ℕ}
use mathlib.Core.Path.{◌≡◌, refl, ap, ◌∙◌}
use mathlib.Core.Bool.{Bool, true, false}
use mathlib.Core.List.{List, [], ◌∷◌, ◌++◌}
use native.Mathlib.Omega.{arith}
use oauth.Prelude.Lists.{Lacks, All}
use oauth.Prelude.Tests.{if◌then◌else◌, Bytes, ◌==◌}

-- Where neither front holds the separator, the texts around it are determined by the whole.
pub append_sep_inj :
    (sep : ℕ) (xs ys : List ℕ) {us vs : List ℕ}
    → Lacks sep xs
    → Lacks sep ys
    → xs ++ sep ∷ us ≡ ys ++ sep ∷ vs
    → (xs ≡ ys) × (us ≡ vs)
append_sep_inj sep [] [] hx hy e = (refl, cc)
append_sep_inj sep [] (y ∷ ys) hx hy e = absurd (hy.0 cc)
append_sep_inj sep (x ∷ xs) [] hx hy e = absurd (hx.0 cc)
append_sep_inj sep (x ∷ xs) (y ∷ ys) {us = us} {vs = vs} hx hy e =
    let tails : xs ++ sep ∷ us ≡ ys ++ sep ∷ vs = cc in
    let same = append_sep_inj sep xs ys hx.1 hy.1 tails in (cc, same.1)

-- Puts a byte in front of the first part.
unfoldable pub prepend : ℕ → List Bytes → List Bytes
prepend c [] = (c ∷ []) ∷ []
prepend c (p ∷ ps) = (c ∷ p) ∷ ps

-- The parts between the separators, the empty ones included.
unfoldable pub split_by : (ℕ → Bool) → Bytes → List Bytes
unfolding prepend
split_by sep [] = [] ∷ []
split_by sep (c ∷ s) = let rest = split_by sep s in if sep c then [] ∷ rest else prepend c rest

module _ (sep : ℕ → Bool) where
  abbrev pub NoSep : Bytes → Type 0
  NoSep = All (λ c. sep c ≡ false)

  pub split_by-cons :
      (p s : Bytes) (c : ℕ)
      → NoSep p
      → sep c ≡ true
      → split_by sep (p ++ c ∷ s) ≡ p ∷ split_by sep s
  unfolding split_by
  split_by-cons [] s c h k = rw k
  split_by-cons (x ∷ p) s c h k = rw (h.0, split_by-cons p s c h.1 k)

  pub split_by-part : (p : Bytes) → NoSep p → split_by sep p ≡ p ∷ []
  unfolding split_by
  split_by-part [] h = refl
  split_by-part (x ∷ p) h = rw (h.0, split_by-part p h.1)

-- The test of one separator.
abbrev pub is_byte : ℕ → ℕ → Bool
is_byte sep c = c == sep

pub Lacks-NoSep : (sep : ℕ) (s : Bytes) → Lacks sep s → NoSep (is_byte sep) s
Lacks-NoSep sep [] h = tt
Lacks-NoSep sep (c ∷ s) h = (ground arith, Lacks-NoSep sep s h.1)

-- Ruby's `join(sep)`.
unfoldable pub join : Bytes → List Bytes → Bytes
join sep [] = []
join sep (x ∷ []) = x
join sep (x ∷ y ∷ rest) = x ++ (sep ++ join sep (y ∷ rest))

pub join-singleton : (sep x : Bytes) → join sep (x ∷ []) ≡ x
unfolding join
join-singleton sep x = refl

pub split_by-join :
    (sep : ℕ → Bool) (c : ℕ) (p : Bytes) (ps : List Bytes)
    → sep c ≡ true
    → All (NoSep sep) (p ∷ ps)
    → split_by sep (join (c ∷ []) (p ∷ ps)) ≡ p ∷ ps
unfolding join
split_by-join sep c p [] k h = split_by-part sep p h.0
split_by-join sep c p (q ∷ qs) k h =
    split_by-cons sep p (join (c ∷ []) (q ∷ qs)) c h.0 k
    ∙ ap (p ∷◌) (split_by-join sep c q qs k h.1)
