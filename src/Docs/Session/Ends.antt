-- ===== src/Docs/Session/Ends.antt =====
-- Timeouts end a search, and what is told then.
use oauth.Prelude.{
  ℕ, zero, suc, ◌+◌, ◌*◌, ◌≤◌, ◌≡◌, refl, sym, ap, ◌∙◌, ◌⊎◌, inl, inr, List, [], ◌∷◌, ◌++◌, Bool,
  true, Option, none, some, Bytes, All, length, arith,
}
use mathlib.Core.Path.{subst}
use mathlib.Core.Option.{some-injective}
use oauth.Docs.Search.{Entry, partial_search, results_text}
use oauth.Docs.Search.Batches.{Judged, Advance, partial_search-Advance}
use oauth.Docs.Session.{
  Session, visible_count, search_done, settle_batch, run_batch, begin_search, perform_search,
  update_search_results, expire, run_timeout,
}

module _ (regexp_test : Bytes → Bool → Bytes → Bool)
    (regexp_strong : Bytes → Bool → Bytes → Bytes) where
  unfoldable pub run_timeouts : ℕ → Session → Session
  run_timeouts zero s = s
  run_timeouts (suc n) s = run_timeouts n (run_timeout regexp_test regexp_strong s)

  -- No timeout is pending, and the number of visible LIs has been told.
  abbrev pub Told : ℕ → Session → Type 0
  Told count s = (s.timeout ≡ none) × (s.results ≡ results_text count) × (s.results_shown ≡ true)

  run_timeout-idle : (s : Session) → s.timeout ≡ none → run_timeout regexp_test regexp_strong s ≡ s
  unfolding run_timeout expire
  run_timeout-idle s e = ap (λ t. expire regexp_test regexp_strong t s) e

  run_timeout-pending :
      (s : Session) (text : Bytes) (offset : ℕ)
      → s.timeout ≡ some (text, offset)
      → run_timeout regexp_test regexp_strong s
        ≡ run_batch regexp_test regexp_strong text offset (record s { timeout = none })
  unfolding run_timeout expire
  run_timeout-pending s text offset e = ap (λ t. expire regexp_test regexp_strong t s) e

  idle_timeouts : (n : ℕ) (s : Session) → s.timeout ≡ none → run_timeouts n s ≡ s
  unfolding run_timeouts
  idle_timeouts zero s e = refl
  idle_timeouts (suc n) s e = ap (run_timeouts n) (run_timeout-idle s e) ∙ idle_timeouts n s e

  -- What stands between two batches.
  abbrev Rest : Bytes → ℕ → ℕ → Session → Type 0
  Rest text left count s =
      (offset : ℕ) × (s.timeout ≡ some (text, offset))
      × (visible_count s.lis ≡ count)
      × ((seen : List Entry) × (rest : List Entry) × (s.cache ≡ seen ++ rest)
          × (offset ≡ length seen)
          × All (Judged regexp_test regexp_strong text) seen
          × (50 + length rest ≡ left))

  settle-ends :
      (text : Bytes) (left : ℕ) (s : Session) (out : List Entry × Option ℕ)
      → Advance regexp_test regexp_strong text s.cache left out
      → Told (visible_count s.lis) (settle_batch text s out)
        ⊎ Rest text left (visible_count s.lis) (settle_batch text s out)
  unfolding settle_batch search_done
  settle-ends text left s (cache, none) (inl last) = inl (refl, refl, refl)
  settle-ends text left s (cache, some next) (inl (last, judged, kept)) = cc
  settle-ends text left s (cache, none) (inr (seen, rest, e, judged, fewer, kept)) = cc
  settle-ends text left s (cache, some next) (inr (seen, rest, e, judged, fewer, kept)) = inr (
    next,
    refl,
    refl,
    (
      seen,
      rest,
      ap (λ p. p.0) e,
      some-injective next (length seen) (ap (λ p. p.1) e),
      judged,
      fewer,
    ),
  )

  batch-ends :
      (text : Bytes) (s : Session) (seen rest : List Entry)
      → s.cache ≡ seen ++ rest
      → All (Judged regexp_test regexp_strong text) seen
      → Told (visible_count s.lis) (run_batch regexp_test regexp_strong text (length seen) s)
        ⊎ Rest text
            (length rest)
            (visible_count s.lis)
            (run_batch regexp_test regexp_strong text (length seen) s)
  unfolding run_batch
  batch-ends text s seen rest e judged = settle-ends text (length rest) s _ (
      subst
        (λ cache.
          Advance regexp_test regexp_strong text cache (length rest)
            (partial_search regexp_test regexp_strong text cache (length seen)))
        (sym e) (partial_search-Advance regexp_test regexp_strong text seen rest judged))

  timeouts-Told :
      (n : ℕ) (text : Bytes) (left count : ℕ) (s : Session)
      → Told count s ⊎ Rest text left count s
      → left ≤ n * 50
      → Told count (run_timeouts n s)
  unfolding run_timeouts
  timeouts-Told n text left count s (inl told) enough =
      subst (Told count) (sym (idle_timeouts n s told.0)) told
  timeouts-Told zero text left count s (inr (offset, pending, counted, more)) enough =
      absurd (omega arith)
  timeouts-Told (suc n) text left count s
        (inr (offset, pending, counted, (seen, rest, split, at_seen, judged, fewer))) enough =
      let idle = record s { timeout = none } in
      let last = batch-ends text idle seen rest split judged in
      let next = run_batch regexp_test regexp_strong text (length seen) idle in
      let same : run_timeout regexp_test regexp_strong s ≡ next =
        run_timeout-pending s text offset pending
        ∙ ap (λ k. run_batch regexp_test regexp_strong text k idle) at_seen in
      subst (λ t. Told count (run_timeouts n t)) (sym same)
        (subst (λ k. Told k (run_timeouts n next)) counted
          (timeouts-Told n text (length rest) (visible_count s.lis) next last (omega arith)))

  -- A search ends: after a change of the input, one timeout for every fifty items is enough, and no
  -- timeout is pending then. The number of results that is told is that of the LIs that no collapsed
  -- one hides, whatever the search string finds.
  pub update_search_results-Told :
      (n c : ℕ) (text : Bytes) (s : Session)
      → length s.cache ≤ n * 50
      → Told
          (visible_count s.lis)
          (run_timeouts n (update_search_results regexp_test regexp_strong (c ∷ text) s))
  unfolding update_search_results perform_search begin_search
  update_search_results-Told n c text s enough =
      let begun = begin_search regexp_test regexp_strong s in
      timeouts-Told n (c ∷ text) (length s.cache) (visible_count s.lis)
        (run_batch regexp_test regexp_strong (c ∷ text) 0 begun)
        (batch-ends (c ∷ text) begun [] s.cache refl tt) enough
