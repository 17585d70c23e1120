-- ===== src/Params/Appended.antt =====
-- Hashes that are appended and selected from.
use mathlib.Core.Option.{some-injective}
use mathlib.Core.List.{append_assoc}
use oauth.Prelude.{
  ◌≡◌, ◌≢◌, refl, sym, ap, ◌∙◌, ◌++◌, All, All-append, Bool, true, false, Bool-cases, inl, inr, [],
  ◌∷◌, some, none, Bytes, bytes_eq, bytes_eq_iff, bytes_eq_sound, arith, append-nil,
}
use oauth.Params.{Params, NodupKeys, lookup, merge, select}
use oauth.Params.Laws.{store-fresh, NodupKeys-fresh}

module _ {ℓ} {V : Type ℓ} where
  -- A hash merged with one of other keys.
  pub merge-fresh : (hash ps : Params V) → NodupKeys (hash ++ ps) → merge hash ps ≡ hash ++ ps
  unfolding merge
  merge-fresh hash [] h = sym (append-nil hash)
  merge-fresh hash ((k, v) ∷ ps) h =
      let assoc : (hash ++ (k, v) ∷ []) ++ ps ≡ hash ++ (k, v) ∷ ps =
        append_assoc hash ((k, v) ∷ []) ps in
      rw (store-fresh k v hash (NodupKeys-fresh hash ps k v h))
        (merge-fresh (hash ++ (k, v) ∷ []) ps (rw assoc h) ∙ assoc)

  pub lookup-fresh : (key : Bytes) (ps : Params V) → All (λ p. p.0 ≢ key) ps → lookup key ps ≡ none
  unfolding lookup
  lookup-fresh key [] h = refl
  lookup-fresh key ((k, v) ∷ ps) h = ground (arith, bytes_eq_iff k key, lookup-fresh key ps h.1)

  pub lookup-append_fresh :
      (key : Bytes) (ps qs : Params V)
      → All (λ p. p.0 ≢ key) ps
      → lookup key (ps ++ qs) ≡ lookup key qs
  unfolding lookup
  lookup-append_fresh key [] qs h = refl
  lookup-append_fresh key ((k, v) ∷ ps) qs h =
      ground (arith, bytes_eq_iff k key, lookup-append_fresh key ps qs h.1)

  pub lookup-append_found :
      (key : Bytes) (ps qs : Params V) (v : V)
      → lookup key ps ≡ some v
      → lookup key (ps ++ qs) ≡ some v
  unfolding lookup
  lookup-append_found key [] qs v h = cc
  lookup-append_found key ((k, w) ∷ ps) qs v h = elim (Bool-cases (bytes_eq k key)) [
    | inl same ↦ rw same (rw same at h)
    | inr differ ↦ rw differ (lookup-append_found key ps qs v (rw differ at h))
  ]

  module _ (keep : Bytes → V → Bool) where
    pub select-append :
        (ps qs : Params V) → select keep (ps ++ qs) ≡ select keep ps ++ select keep qs
    unfolding select
    select-append [] qs = refl
    select-append ((k, v) ∷ ps) qs = elim (Bool-cases (keep k v)) [
      | inl kept ↦ rw kept (ap ((k, v) ∷◌) (select-append ps qs))
      | inr dropped ↦ rw dropped (select-append ps qs)
    ]

    pub select-all : (ps : Params V) → All (λ p. keep p.0 p.1 ≡ true) ps → select keep ps ≡ ps
    unfolding select
    select-all [] h = refl
    select-all ((k, v) ∷ ps) h = rw h.0 (ap ((k, v) ∷◌) (select-all ps h.1))

    pub lookup-select :
        (key : Bytes) (ps : Params V) (v : V)
        → lookup key ps ≡ some v
        → keep key v ≡ true
        → lookup key (select keep ps) ≡ some v
    unfolding select lookup
    lookup-select key [] v h kept = cc
    lookup-select key ((k, w) ∷ ps) v h kept = elim (Bool-cases (bytes_eq k key)) [
      | inl same ↦
          let found : some w ≡ some v = rw same at h in
          let kept' : keep k w ≡ true =
            rw (bytes_eq_sound k key same, some-injective w v found) kept in
          rw kept' (rw same found)
      | inr differ ↦
          let rest = lookup-select key ps v (rw differ at h) kept in
          elim (Bool-cases (keep k w)) [
            | inl also ↦ rw also (rw differ rest)
            | inr dropped ↦ rw dropped rest
          ]
    ]

    pub All-select {κ} :
        (P : Bytes × V → Type κ) (ps : Params V) → All P ps → All P (select keep ps)
    unfolding select
    All-select P [] h = tt
    All-select P ((k, v) ∷ ps) h = elim (Bool-cases (keep k v)) [
      | inl kept ↦ rw kept (h.0, All-select P ps h.1)
      | inr dropped ↦ rw dropped (All-select P ps h.1)
    ]

    pub NodupKeys-select : (ps : Params V) → NodupKeys ps → NodupKeys (select keep ps)
    unfolding select
    NodupKeys-select [] h = tt
    NodupKeys-select ((k, v) ∷ ps) h = elim (Bool-cases (keep k v)) [
      | inl kept ↦ rw kept (All-select (λ p. p.0 ≢ k) ps h.0, NodupKeys-select ps h.1)
      | inr dropped ↦ rw dropped (NodupKeys-select ps h.1)
    ]

  -- Keys that a test tells apart.
  module _ (test : Bytes → Bool) where
    pub All-apart :
        (key : Bytes) (b : Bool) (ps : Params V)
        → (test key ≡ b → ⊥)
        → All (λ p. test p.0 ≡ b) ps
        → All (λ p. p.0 ≢ key) ps
    All-apart key b [] h all = tt
    All-apart key b ((k, v) ∷ ps) h all =
        ((λ same. h (rw (← same) all.0)), All-apart key b ps h all.1)

    pub NodupKeys-append :
        (ps qs : Params V)
        → NodupKeys ps
        → NodupKeys qs
        → All (λ p. test p.0 ≡ false) ps
        → All (λ p. test p.0 ≡ true) qs
        → NodupKeys (ps ++ qs)
    NodupKeys-append [] qs h h' plain special = h'
    NodupKeys-append ((k, v) ∷ ps) qs h h' plain special = (
      All-append _ ps qs h.0 (All-apart k true qs (λ e. cc) special),
      NodupKeys-append ps qs h.1 h' plain.1 special,
    )
