-- ===== src/Docs/Search/Batches.antt =====
-- The batches of a search, put together.
use oauth.Prelude.{
  ℕ, zero, suc, ◌+◌, ◌*◌, ◌≤◌, ◌<◌, ◌≡◌, refl, sym, ap, ◌∙◌, All, All-append, List, [], ◌∷◌, ◌++◌,
  append_assoc, append-nil, Bool, true, false, Option, none, some, ◌⊎◌, inl, inr, Bool-cases, Bytes,
  if◌then◌else◌, leb, ◌==◌, arith, length, length-append, take, drop, min, take-length_append,
  drop-length_append, take-drop, length-take, length-drop, drop-all,
}
use oauth.Docs.Search.{
  Entry, RowClass, is_match, search_entry, search_batch, partial_search, resume, search_from,
  found_entry,
}
use oauth.Docs.Search.Names.{
  Same, SameNames, SameNames-refl, SameNames-append, SameNames-trans, SameNames-length,
  mark_row-kept,
}

-- The offset of the next batch, if there is one.
last_batch :
    (a b : ℕ) {n : ℕ}
    → n ≡ a + b
    → (if min (a + 50) n == n then none else some (min (a + 50) n))
      ≡ (if leb b 50 then none else some (a + 50))
last_batch a b e = ground arith

leb-false : (a b : ℕ) → leb a b ≡ false → b < a
leb-false a b h = ground arith

module _ (regexp_test : Bytes → Bool → Bytes → Bool)
    (regexp_strong : Bytes → Bool → Bytes → Bytes) where
  -- The row is shown as found when its name matches, and only then.
  abbrev pub Judged : Bytes → Entry → Type 0
  Judged text e = e.found ≡ is_match regexp_test regexp_strong text e

  is_match-Same :
      (text : Bytes) (e e' : Entry)
      → Same e e'
      → is_match regexp_test regexp_strong text e' ≡ is_match regexp_test regexp_strong text e
  unfolding is_match
  is_match-Same text e e' (h, k) = rw (h, k) refl

  search_entry-Judged :
      (text : Bytes) (last : Option RowClass) (e : Entry)
      → ((search_entry regexp_test regexp_strong text last e).0.found
          ≡ is_match regexp_test regexp_strong text e)
        × Same e (search_entry regexp_test regexp_strong text last e).0
  unfolding search_entry found_entry
  search_entry-Judged text last e = elim (Bool-cases (is_match regexp_test regexp_strong text e)) [
    | inl h ↦ let kept = mark_row-kept last e in rw h (kept.1, kept.0)
    | inr h ↦ rw h (refl, (refl, refl))
  ]

  search_batch-Judged :
      (text : Bytes) (last : Option RowClass) (es : List Entry)
      → All (Judged text) (search_batch regexp_test regexp_strong text last es)
        × SameNames es (search_batch regexp_test regexp_strong text last es)
  unfolding search_batch
  search_batch-Judged text last [] = (tt, tt)
  search_batch-Judged text last (e ∷ es) =
      let (judged, same) = search_entry-Judged text last e in
      let next = search_entry regexp_test regexp_strong text last e in
      let (rest, rest_same) = search_batch-Judged text next.1 es in
      ((judged ∙ sym (is_match-Same text e next.0 same), rest), (same, rest_same))

  -- The cache after a batch, which is at the end of what has been searched.
  abbrev after_batch : Bytes → List Entry → List Entry → List Entry
  after_batch text seen rest =
      (seen ++ search_batch regexp_test regexp_strong text none (take 50 rest)) ++ drop 50 rest

  partial_search-append :
      (text : Bytes) (seen rest : List Entry)
      → partial_search regexp_test regexp_strong text (seen ++ rest) (length seen) ≡ (
        after_batch text seen rest,
        if leb (length rest) 50 then none else some (length seen + 50),
      )
  unfolding partial_search
  partial_search-append text seen rest =
      rw
        (
          take-length_append seen rest,
          drop-length_append seen rest,
          append_assoc seen _ (drop 50 rest),
        )
        (ap
          (λ m. (
            seen
                ++ (search_batch regexp_test regexp_strong text none (take 50 rest)
                    ++ drop 50 rest),
            m,
          ))
          (last_batch (length seen) (length rest) (length-append seen rest)))

  batch-length :
      (text : Bytes) (rest : List Entry)
      → length (search_batch regexp_test regexp_strong text none (take 50 rest))
        ≡ min 50 (length rest)
  batch-length text rest =
      SameNames-length _ _ (search_batch-Judged text none (take 50 rest)).1 ∙ length-take 50 rest

  after_batch-SameNames :
      (text : Bytes) (seen rest : List Entry)
      → SameNames (seen ++ rest) (after_batch text seen rest)
  after_batch-SameNames text seen rest =
      rw
        (append_assoc seen (search_batch regexp_test regexp_strong text none (take 50 rest))
          (drop 50 rest))
        (SameNames-append seen seen rest _ (SameNames-refl seen) (
          rw (take-drop 50 rest) at (
            SameNames-append (take 50 rest) _ (drop 50 rest) (drop 50 rest)
              (search_batch-Judged text none (take 50 rest)).1 (SameNames-refl (drop 50 rest)))))

  -- A search that is over has judged every item, and kept the items and their order.
  abbrev pub Finished : Bytes → List Entry → Option (List Entry) → Type 0
  Finished text cache run =
      (result : List Entry) × (run ≡ some result)
      × All (Judged text) result
      × SameNames cache result

  -- A batch either is the last, and then every item is judged, or leaves a longer part judged, up to
  -- the offset of the next.
  abbrev pub Advance : Bytes → List Entry → ℕ → List Entry × Option ℕ → Type 0
  Advance text cache left out =
      ((out.1 ≡ none) × All (Judged text) out.0 × SameNames cache out.0)
      ⊎ ((seen : List Entry) × (rest : List Entry) × (out ≡ (seen ++ rest, some (length seen)))
          × All (Judged text) seen
          × (50 + length rest ≡ left)
          × SameNames cache (seen ++ rest))

  search_from-last :
      (fuel : ℕ) (text : Bytes) (seen rest : List Entry)
      → All (Judged text) seen
      → leb (length rest) 50 ≡ true
      → Finished text
          (seen ++ rest)
          (search_from regexp_test regexp_strong (suc fuel) text (seen ++ rest) (length seen))
  unfolding search_from resume
  search_from-last fuel text seen rest judged last =
      rw (partial_search-append text seen rest, last)
        (
          after_batch text seen rest,
          refl,
          rw (drop-all 50 rest (ground arith), append-nil)
              (All-append (Judged text) seen _ judged
                (search_batch-Judged text none (take 50 rest)).0),
          after_batch-SameNames text seen rest,
        )

  -- The items behind a batch of fifty.
  after_batch-Judged :
      (text : Bytes) (seen rest : List Entry)
      → All (Judged text) seen
      → 50 < length rest
      → All (Judged text) (seen ++ search_batch regexp_test regexp_strong text none (take 50 rest))
        × (length (seen ++ search_batch regexp_test regexp_strong text none (take 50 rest))
            ≡ length seen + 50)
        × (50 + length (drop 50 rest) ≡ length rest)
  after_batch-Judged text seen rest judged more = (
    All-append (Judged text) seen _ judged (search_batch-Judged text none (take 50 rest)).0,
    omega (
      arith,
      length-append seen (search_batch regexp_test regexp_strong text none (take 50 rest)),
      batch-length text rest,
    ),
    omega (arith, length-drop 50 rest, length-take 50 rest),
  )

  pub partial_search-Advance :
      (text : Bytes) (seen rest : List Entry)
      → All (Judged text) seen
      → Advance text
          (seen ++ rest)
          (length rest)
          (partial_search regexp_test regexp_strong text (seen ++ rest) (length seen))
  partial_search-Advance text seen rest judged = elim (Bool-cases (leb (length rest) 50)) [
    | inl last ↦
        rw (partial_search-append text seen rest, last)
          (inl (
            refl,
            rw (drop-all 50 rest (ground arith), append-nil)
                (All-append (Judged text) seen _ judged
                  (search_batch-Judged text none (take 50 rest)).0),
            after_batch-SameNames text seen rest,
          ))
    | inr more ↦
        let (judged', counted, left) =
          after_batch-Judged text seen rest judged (leb-false _ 50 more) in
        rw (partial_search-append text seen rest, more)
          (inr (_, drop 50 rest, rw counted, judged', left, after_batch-SameNames text seen rest))
  ]

  -- From an offset before which every item is judged, a search ends, in batches of fifty from
  -- timeouts, one timeout for every fifty items that are left; then every item is shown as found
  -- exactly when its name, or full name, matches the search string, and the items and their order
  -- are those from before.
  pub search_from-Finished :
      (fuel : ℕ) (text : Bytes) (seen rest : List Entry)
      → All (Judged text) seen
      → length rest ≤ fuel * 50
      → Finished text
          (seen ++ rest)
          (search_from regexp_test regexp_strong (suc fuel) text (seen ++ rest) (length seen))
  unfolding search_from resume
  search_from-Finished zero text seen rest judged enough =
      search_from-last zero text seen rest judged (ground arith)
  search_from-Finished (suc fuel) text seen rest judged enough =
      elim (Bool-cases (leb (length rest) 50)) [
        | inl last ↦ search_from-last (suc fuel) text seen rest judged last
        | inr more ↦
            let (judged', counted, left) =
              after_batch-Judged text seen rest judged (leb-false _ 50 more) in
            let (result, is_result, all, same) =
              search_from-Finished fuel text _ (drop 50 rest) judged' (omega arith) in
            rw (partial_search-append text seen rest, more, ← counted)
              (
                result,
                is_result,
                all,
                SameNames-trans _ _ _ (after_batch-SameNames text seen rest) same,
              )
      ]
