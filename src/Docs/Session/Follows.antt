-- ===== src/Docs/Session/Follows.antt =====
-- The rows shown, against the last value of the input.
use oauth.Prelude.{
  ℕ, ◌≡◌, refl, sym, ap, inl, inr, List, [], ◌∷◌, ◌++◌, Bool, true, false, Option, none, some,
  Bytes, All, length, map,
}
use mathlib.Core.Path.{subst}
use mathlib.Core.Option.{some-injective}
use oauth.Docs.Search.{Entry, partial_search}
use oauth.Docs.Search.Names.{SameNames, SameNames-trans}
use oauth.Docs.Search.Batches.{Judged, Advance, partial_search-Advance}
use oauth.Docs.Session.{
  Session, Li, highlight_lis, flip_li, click_lis, lose_entry, clear_search, search_done,
  settle_batch, run_batch, begin_search, perform_search, update_search_results, expire, run_timeout,
  Event, input, time_out, toggle, click, step, run,
}

-- The value of the input after an event.
unfoldable pub asked_after : Event → Bytes → Bytes
asked_after (input text) asked = text
asked_after _ asked = asked

unfoldable pub asked_by : List Event → Bytes → Bytes
unfolding asked_after
asked_by [] asked = asked
asked_by (e ∷ events) asked = asked_by events (asked_after e asked)

abbrev NotFound : Entry → Type 0
NotFound e = e.found ≡ false

losing : (es : List Entry) → All NotFound (map lose_entry es) × SameNames es (map lose_entry es)
unfolding lose_entry
losing [] = (tt, tt)
losing (e ∷ es) = let (lost, same) = losing es in ((refl, lost), ((refl, refl), same))

module _ (regexp_test : Bytes → Bool → Bytes → Bool)
    (regexp_strong : Bytes → Bool → Bytes → Bytes) where
  -- With no timeout pending: an empty input finds nothing and shows the whole list; for another one,
  -- every item is found exactly when it matches, and the number of results is told.
  abbrev pub Settled : Bytes → Session → Type 0
  Settled [] s = All NotFound s.cache × (s.list_insearch ≡ false) × (s.content_insearch ≡ false)
  Settled (c ∷ text) s =
      All (Judged regexp_test regexp_strong (c ∷ text)) s.cache
      × (s.list_insearch ≡ true)
      × (s.content_insearch ≡ false)
      × (s.results_shown ≡ true)

  -- While a timeout is pending, it is for the value of the input, which is not empty, and the items
  -- before its offset have been judged.
  abbrev pub Searching : Bytes → Bytes → ℕ → Session → Type 0
  Searching [] text offset s = ⊥
  Searching (c ∷ asked) text offset s =
      (text ≡ c ∷ asked)
      × (s.list_insearch ≡ true)
      × (s.content_insearch ≡ true)
      × ((seen : List Entry) × (rest : List Entry) × (s.cache ≡ seen ++ rest)
          × (offset ≡ length seen)
          × All (Judged regexp_test regexp_strong (c ∷ asked)) seen)

  abbrev Following : Bytes → Option (Bytes × ℕ) → Session → Type 0
  Following asked none s = Settled asked s
  Following asked (some (text, offset)) s = Searching asked text offset s

  -- What the list shows follows the value of the input, and the items are those of the page.
  abbrev pub Follows : List Entry → Bytes → Session → Type 0
  Follows items asked s = Following asked s.timeout s × SameNames items s.cache

  settle-Follows :
      (items : List Entry) (c : ℕ) (asked : Bytes) (s : Session) (out : List Entry × Option ℕ)
      (left : ℕ)
      → SameNames items s.cache
      → s.list_insearch ≡ true
      → s.content_insearch ≡ true
      → Advance regexp_test regexp_strong (c ∷ asked) s.cache left out
      → Follows items (c ∷ asked) (settle_batch (c ∷ asked) s out)
  unfolding settle_batch search_done
  settle-Follows items c asked s (cache, none) left same listed busy (inl (last, judged, kept)) =
      ((judged, listed, refl, refl), SameNames-trans items s.cache cache same kept)
  settle-Follows items c asked s (cache, some next) left same listed busy
        (inl (last, judged, kept)) =
      cc
  settle-Follows items c asked s (cache, none) left same listed busy
        (inr (seen, rest, e, judged, fewer, kept)) =
      cc
  settle-Follows items c asked s (cache, some next) left same listed busy
        (inr (seen, rest, e, judged, fewer, kept)) =
      (
        (
          refl,
          listed,
          busy,
          (
            seen,
            rest,
            ap (λ p. p.0) e,
            some-injective next (length seen) (ap (λ p. p.1) e),
            judged,
          ),
        ),
        SameNames-trans items s.cache cache same
            (subst (SameNames s.cache) (sym (ap (λ p. p.0) e)) kept),
      )

  run_batch-Follows :
      (items : List Entry) (c : ℕ) (asked : Bytes) (s : Session) (seen rest : List Entry)
      → SameNames items s.cache
      → s.list_insearch ≡ true
      → s.content_insearch ≡ true
      → s.cache ≡ seen ++ rest
      → All (Judged regexp_test regexp_strong (c ∷ asked)) seen
      → Follows items (c ∷ asked) (run_batch regexp_test regexp_strong (c ∷ asked) (length seen) s)
  unfolding run_batch
  run_batch-Follows items c asked s seen rest same listed busy e judged =
      settle-Follows items c asked s _ (length rest) same listed busy (
        subst
          (λ cache.
            Advance regexp_test regexp_strong (c ∷ asked) cache (length rest)
              (partial_search regexp_test regexp_strong (c ∷ asked) cache (length seen)))
          (sym e) (partial_search-Advance regexp_test regexp_strong (c ∷ asked) seen rest judged))

  input-Follows :
      (items : List Entry) (text : Bytes) (s : Session)
      → SameNames items s.cache
      → Follows items text (update_search_results regexp_test regexp_strong text s)
  unfolding update_search_results perform_search begin_search clear_search
  input-Follows items [] s same =
      let (lost, kept) = losing s.cache in
      ((lost, refl, refl), SameNames-trans items s.cache (map lose_entry s.cache) same kept)
  input-Follows items (c ∷ text) s same =
      run_batch-Follows items c text (begin_search regexp_test regexp_strong s) [] s.cache same refl
        refl refl tt

  expire-Follows :
      (items : List Entry) (asked : Bytes) (timeout : Option (Bytes × ℕ)) (s : Session)
      → s.timeout ≡ timeout
      → Following asked timeout s
      → SameNames items s.cache
      → Follows items asked (expire regexp_test regexp_strong timeout s)
  unfolding expire
  expire-Follows items asked none s e h same = (subst (λ t. Following asked t s) (sym e) h, same)
  expire-Follows items (c ∷ asked) (some (text, offset)) s e
        (is_text, listed, busy, (seen, rest, split, at_seen, judged)) same =
      rw (is_text, at_seen)
        (run_batch-Follows items c asked (record s { timeout = none }) seen rest same listed busy
          split judged)
  expire-Follows items [] (some (text, offset)) s e h same = elim h [ ]

  Following-lis :
      (asked : Bytes) (timeout : Option (Bytes × ℕ)) (s : Session) (lis : List Li)
      (clicked : Option ℕ)
      → Following asked timeout s
      → Following asked timeout (record s { lis = lis; clicked = clicked })
  Following-lis [] none s lis clicked h = h
  Following-lis (c ∷ asked) none s lis clicked h = h
  Following-lis [] (some (text, offset)) s lis clicked h = h
  Following-lis (c ∷ asked) (some (text, offset)) s lis clicked h = h

  -- Every input, timeout and click keeps what the list shows in line with the value of the input.
  pub step-Follows :
      (items : List Entry) (event : Event) (asked : Bytes) (s : Session)
      → Follows items asked s
      → Follows items (asked_after event asked) (step regexp_test regexp_strong event s)
  unfolding step asked_after run_timeout
  step-Follows items (input text) asked s (h, same) = input-Follows items text s same
  step-Follows items time_out asked s (h, same) = expire-Follows items asked s.timeout s refl h same
  step-Follows items (toggle key) asked s (h, same) =
      (Following-lis asked s.timeout s (highlight_lis (map (flip_li key) s.lis)) s.clicked h, same)
  step-Follows items (click key) asked s (h, same) =
      (Following-lis asked s.timeout s (click_lis key s.lis) (some key) h, same)

  -- From a page in line with the value of the input, after any inputs, timeouts and clicks, the list is in line
  -- with the last value of the input: with no timeout pending, an empty value finds nothing, and for
  -- another one every item is found exactly when it matches; while one is pending, it is for this
  -- value, and the items before its offset are judged.
  pub run-Follows :
      (items : List Entry) (events : List Event) (asked : Bytes) (s : Session)
      → Follows items asked s
      → Follows items (asked_by events asked) (run regexp_test regexp_strong events s)
  unfolding run asked_by
  run-Follows items [] asked s h = h
  run-Follows items (e ∷ events) asked s h =
      run-Follows items events (asked_after e asked) (step regexp_test regexp_strong e s)
        (step-Follows items e asked s h)
