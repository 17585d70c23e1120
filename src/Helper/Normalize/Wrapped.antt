-- ===== src/Helper/Normalize/Wrapped.antt =====
-- Parameters whose texts agree, one by one, are normalised to the same text.
use mathlib.Core.Option
use oauth.Prelude.{
  ◌≡◌, refl, ap, [], ◌∷◌, Bool, true, false, Bool-cases, inl, inr, none, some, Bytes,
}
use oauth.Prelude.Order.{insert, bytes_le}
use oauth.Prelude.Split.{join}
use oauth.Params.{Value, Params, select}
use oauth.Helper.Normalize.{key_le, sort_params, entry_text, entry_texts, normalize}

abbrev pub SameTexts : Params Value → Params Value → Type 0
SameTexts [] [] = Unit
SameTexts ((k, v) ∷ ps) ((j, w) ∷ qs) =
    (k ≡ j) × (entry_text k v ≡ entry_text j w) × SameTexts ps qs
SameTexts _ _ = ⊥

SameTexts-insert :
    (k j : Bytes) (v w : Value) (ps qs : Params Value)
    → k ≡ j
    → entry_text k v ≡ entry_text j w
    → SameTexts ps qs
    → SameTexts (insert key_le (k, v) ps) (insert key_le (j, w) qs)
unfolding insert
SameTexts-insert k j v w [] [] e t h = (e, t, tt)
SameTexts-insert k j v w [] (q ∷ qs) e t h = elim h [ ]
SameTexts-insert k j v w (p ∷ ps) [] e t h = elim h [ ]
SameTexts-insert k j v w ((k', v') ∷ ps) ((j', w') ∷ qs) e t (e', t', h) =
    let same : bytes_le k k' ≡ bytes_le j j' = λ i. bytes_le (e i) (e' i) in
    elim (Bool-cases (bytes_le k k')) [
      | inl le ↦ let le' : bytes_le j j' ≡ true = cc in rw (le, le') (e, t, (e', t', h))
      | inr gt ↦
          let gt' : bytes_le j j' ≡ false = cc in
          rw (gt, gt') (e', t', SameTexts-insert k j v w ps qs e t h)
    ]

SameTexts-sort_params :
    (ps qs : Params Value) → SameTexts ps qs → SameTexts (sort_params ps) (sort_params qs)
unfolding sort_params
SameTexts-sort_params [] [] h = tt
SameTexts-sort_params [] (q ∷ qs) h = elim h [ ]
SameTexts-sort_params (p ∷ ps) [] h = elim h [ ]
SameTexts-sort_params ((k, v) ∷ ps) ((j, w) ∷ qs) (e, t, h) =
    SameTexts-insert k j v w (sort_params ps) (sort_params qs) e t (SameTexts-sort_params ps qs h)

entry_texts-eq : (ps qs : Params Value) → SameTexts ps qs → entry_texts ps ≡ entry_texts qs
unfolding entry_texts
entry_texts-eq [] [] h = refl
entry_texts-eq [] (q ∷ qs) h = elim h [ ]
entry_texts-eq (p ∷ ps) [] h = elim h [ ]
entry_texts-eq ((k, v) ∷ ps) ((j, w) ∷ qs) (e, t, h) =
    let rest = entry_texts-eq ps qs h in
    λ i. elim (t i) [ none ↦ none | some text ↦ Option.map (λ ts. text ∷ ts) (rest i) ]

pub normalize-SameTexts : (ps qs : Params Value) → SameTexts ps qs → normalize ps ≡ normalize qs
unfolding normalize
normalize-SameTexts ps qs h =
    ap (Option.map (join (b'&' ∷ [])))
      (entry_texts-eq (sort_params ps) (sort_params qs) (SameTexts-sort_params ps qs h))

-- A choice by keys.
pub select-SameTexts :
    (keep : Bytes → Bool) (ps qs : Params Value)
    → SameTexts ps qs
    → SameTexts (select (λ k v. keep k) ps) (select (λ k v. keep k) qs)
unfolding select
select-SameTexts keep [] [] h = tt
select-SameTexts keep [] (q ∷ qs) h = elim h [ ]
select-SameTexts keep (p ∷ ps) [] h = elim h [ ]
select-SameTexts keep ((k, v) ∷ ps) ((j, w) ∷ qs) (e, t, h) =
    let same : keep k ≡ keep j = ap keep e in
    elim (Bool-cases (keep k)) [
      | inl kept ↦
          let kept' : keep j ≡ true = cc in rw (kept, kept') (e, t, select-SameTexts keep ps qs h)
      | inr dropped ↦
          let dropped' : keep j ≡ false = cc in
          rw (dropped, dropped') (select-SameTexts keep ps qs h)
    ]
