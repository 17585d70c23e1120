-- ===== src/Helper/Normalize/RoundTrip.antt =====
-- A text of string parameters spells them: a reader that cuts it at "&" and "=" and unescapes the
-- parts finds the parameters in sorted order.
use mathlib.Core.Option
use mathlib.Core.List.{cons-ne-nil}
use oauth.Prelude.{
  ◌≡◌, ◌≢◌, refl, ap, arith, Lacks, All-append, Bool-cases, inl, inr, List, [], ◌∷◌, Option, none,
  some, Bytes, All, IsBytes,
}
use oauth.Prelude.Order.{insert}
use oauth.Prelude.Split.{
  NoSep, join, split_by-join, split_by, is_byte, split_by-cons, split_by-part, Lacks-NoSep,
}
use oauth.Params.{Value, str, Params}
use oauth.Helper.Escape.{escape, unescape}
use oauth.Helper.Escape.RoundTrip.{escape-IsSafe, IsSafe-Lacks, unescape-escape}
use oauth.Helper.Normalize.{pair_text, key_le, sort_params, entry_texts, normalize}

-- One "key=value".
unfoldable pub read_pair : Bytes → Option (Bytes × Bytes)
read_pair text = elim (split_by (is_byte b'=') text) [
  | k ∷ v ∷ [] ↦ some (unescape k, unescape v)
  | _ ↦ none
]

unfoldable pub read_pairs : List Bytes → Option (Params Bytes)
unfolding read_pair
read_pairs [] = some []
read_pairs (t ∷ ts) = elim (read_pair t) [
  | none ↦ none
  | some p ↦ Option.map (λ ps. p ∷ ps) (read_pairs ts)
]

-- A reader of application/x-www-form-urlencoded text, written from the format.
unfoldable pub read_form : Bytes → Option (Params Bytes)
unfolding read_pairs split_by
read_form text = read_pairs (split_by (is_byte b'&') text)

-- The parameters as `normalize` takes them.
abbrev pub as_values : Params Bytes → Params Value
as_values [] = []
as_values ((k, v) ∷ rest) = (k, str v) ∷ as_values rest

abbrev pub BytePairs : Params Bytes → Type 0
BytePairs = All (λ p. IsBytes p.0 × IsBytes p.1)

unfoldable pub texts : Params Bytes → List Bytes
texts [] = []
texts ((k, v) ∷ rest) = pair_text k v ∷ texts rest

insert-as_values :
    (p : Bytes × Bytes) (ps : Params Bytes)
    → insert key_le (p.0, str p.1) (as_values ps) ≡ as_values (insert key_le p ps)
unfolding insert
insert-as_values p [] = refl
insert-as_values p (q ∷ ps) = elim (Bool-cases (key_le p q)) [
  | inl le ↦ rw le refl
  | inr gt ↦ rw gt (ap ((q.0, str q.1) ∷◌) (insert-as_values p ps))
]

sort-as_values : (ps : Params Bytes) → sort_params (as_values ps) ≡ as_values (sort_params ps)
unfolding sort_params
sort-as_values [] = refl
sort-as_values (p ∷ ps) = rw (sort-as_values ps) (insert-as_values p (sort_params ps))

entry_texts-as_values : (ps : Params Bytes) → entry_texts (as_values ps) ≡ some (texts ps)
unfolding entry_texts texts
entry_texts-as_values [] = refl
entry_texts-as_values (p ∷ ps) = rw (entry_texts-as_values ps)

insert-BytePairs :
    (p : Bytes × Bytes) (ps : Params Bytes)
    → IsBytes p.0 × IsBytes p.1
    → BytePairs ps
    → BytePairs (insert key_le p ps)
unfolding insert
insert-BytePairs p [] hp h = (hp, tt)
insert-BytePairs p (q ∷ ps) hp h = elim (Bool-cases (key_le p q)) [
  | inl le ↦ rw le (hp, h)
  | inr gt ↦ rw gt (h.0, insert-BytePairs p ps hp h.1)
]

sort-BytePairs : (ps : Params Bytes) → BytePairs ps → BytePairs (sort_params ps)
unfolding sort_params
sort-BytePairs [] h = tt
sort-BytePairs (p ∷ ps) h = insert-BytePairs p (sort_params ps) h.0 (sort-BytePairs ps h.1)

-- What "&" and "=" do not occur in.
escape-Lacks : (s : Bytes) → IsBytes s → Lacks b'&' (escape s) × Lacks b'=' (escape s)
escape-Lacks s h = let free = IsSafe-Lacks (escape s) (escape-IsSafe s h) in (free.0, free.1)

split-pair_text :
    (k v : Bytes)
    → IsBytes k
    → IsBytes v
    → split_by (is_byte b'=') (pair_text k v) ≡ escape k ∷ escape v ∷ []
unfolding pair_text
split-pair_text k v hk hv = rw (
  split_by-cons (is_byte b'=') (escape k) (escape v) b'='
      (Lacks-NoSep b'=' (escape k) (escape-Lacks k hk).1) refl,
  split_by-part (is_byte b'=') (escape v) (Lacks-NoSep b'=' (escape v) (escape-Lacks v hv).1),
)

read_pair_text : (k v : Bytes) → IsBytes k → IsBytes v → read_pair (pair_text k v) ≡ some (k, v)
unfolding read_pair
read_pair_text k v hk hv =
    rw (split-pair_text k v hk hv, read_pair, unescape-escape k hk, unescape-escape v hv)

pair_text-Lacks : (k v : Bytes) → IsBytes k → IsBytes v → Lacks b'&' (pair_text k v)
unfolding pair_text
pair_text-Lacks k v hk hv =
    All-append (λ c. c ≢ b'&') (escape k) (b'=' ∷ escape v) (escape-Lacks k hk).0
      (omega arith, (escape-Lacks v hv).0)

texts-NoSep : (ps : Params Bytes) → BytePairs ps → All (NoSep (is_byte b'&')) (texts ps)
unfolding texts
texts-NoSep [] h = tt
texts-NoSep ((k, v) ∷ ps) h =
    (Lacks-NoSep b'&' (pair_text k v) (pair_text-Lacks k v h.0.0 h.0.1), texts-NoSep ps h.1)

read_pairs-texts : (ps : Params Bytes) → BytePairs ps → read_pairs (texts ps) ≡ some ps
unfolding read_pairs texts
read_pairs-texts [] h = refl
read_pairs-texts ((k, v) ∷ ps) h =
    rw (read_pair_text k v h.0.0 h.0.1, read_pairs, read_pairs-texts ps h.1)

read_form-texts :
    (p : Bytes × Bytes) (ps : Params Bytes)
    → BytePairs (p ∷ ps)
    → read_form (join (b'&' ∷ []) (texts (p ∷ ps))) ≡ some (p ∷ ps)
unfolding read_form texts
read_form-texts (k, v) ps h =
    rw
      (split_by-join (is_byte b'&') b'&' (pair_text k v) (texts ps) refl
        (texts-NoSep ((k, v) ∷ ps) h))
      (read_pairs-texts ((k, v) ∷ ps) h)

insert-ne-nil : (p : Bytes × Bytes) (ps : Params Bytes) → insert key_le p ps ≢ []
unfolding insert
insert-ne-nil p [] = cons-ne-nil p []
insert-ne-nil p (q ∷ ps) = elim (Bool-cases (key_le p q)) [
  | inl le ↦ rw le (cons-ne-nil _ _)
  | inr gt ↦ rw gt (cons-ne-nil _ _)
]

sort-ne-nil : (ps : Params Bytes) → ps ≢ [] → sort_params ps ≢ []
unfolding sort_params
sort-ne-nil [] h = absurd (h refl)
sort-ne-nil (p ∷ ps) h = insert-ne-nil p (sort_params ps)

pub read_form-sorted :
    (ps : Params Bytes) → ps ≢ [] → BytePairs ps → read_form (join (b'&' ∷ []) (texts ps)) ≡ some ps
read_form-sorted [] ne h = absurd (ne refl)
read_form-sorted (p ∷ ps) ne h = read_form-texts p ps h

-- The normalised text of string parameters exists, and read as a form it gives the parameters in
-- the order of their keys, with every byte of keys and values as it was.
pub read_form-normalize :
    (ps : Params Bytes)
    → ps ≢ []
    → BytePairs ps
    → Option.bind (normalize (as_values ps)) read_form ≡ some (sort_params ps)
unfolding normalize Option.bind
read_form-normalize ps ne h =
    rw (sort-as_values ps, entry_texts-as_values (sort_params ps))
      (read_form-sorted (sort_params ps) (sort-ne-nil ps ne) (sort-BytePairs ps h))
