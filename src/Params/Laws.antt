-- ===== src/Params/Laws.antt =====
-- Laws of parameter hashes.
use oauth.Prelude.{
  ◌≡◌, ◌≢◌, refl, sym, ◌++◌, All, Bool, true, false, [], ◌∷◌, some, Bytes, bytes_eq, bytes_eq_iff,
  if◌then◌else◌, arith,
}
use oauth.Params.{Params, NodupKeys, lookup, store, select}

module _ {ℓ} {V : Type ℓ} where
  pub lookup-store :
      (key k : Bytes) (v : V) (hash : Params V)
      → lookup key (store k v hash) ≡ (if bytes_eq k key then some v else lookup key hash)
  unfolding lookup store
  lookup-store key k v [] = refl
  lookup-store key k v ((j, w) ∷ rest) =
      ground
        (arith, bytes_eq_iff j k, bytes_eq_iff k key, bytes_eq_iff j key, lookup-store key k v rest)

  -- A key that a selection drops can be written without changing what is selected.
  pub select-store :
      (keep : Bytes → V → Bool) (k : Bytes) (v : V) (hash : Params V)
      → ((j : Bytes) (w : V) → bytes_eq j k ≡ true → keep j w ≡ false)
      → select keep (store k v hash) ≡ select keep hash
  unfolding select store
  select-store keep k v [] drops = ground (arith, drops k v, bytes_eq_iff k k)
  select-store keep k v ((j, w) ∷ rest) drops =
      ground (arith, drops j w, drops j v, bytes_eq_iff j k, select-store keep k v rest drops)

  -- A key that is not there yet is written at the end.
  pub store-fresh :
      (k : Bytes) (v : V) (hash : Params V)
      → All (λ p. p.0 ≢ k) hash
      → store k v hash ≡ hash ++ (k, v) ∷ []
  unfolding store
  store-fresh k v [] h = refl
  store-fresh k v ((j, w) ∷ hash) h = ground (arith, bytes_eq_iff j k, store-fresh k v hash h.1)

  All-middle {κ} :
      (P : Bytes × V → Type κ) (xs ys : Params V) (y : Bytes × V) → All P (xs ++ y ∷ ys) → P y
  All-middle P [] ys y h = h.0
  All-middle P (x ∷ xs) ys y h = All-middle P xs ys y h.1

  pub NodupKeys-fresh :
      (hash rest : Params V) (k : Bytes) (v : V)
      → NodupKeys (hash ++ (k, v) ∷ rest)
      → All (λ p. p.0 ≢ k) hash
  NodupKeys-fresh [] rest k v h = tt
  NodupKeys-fresh ((j, w) ∷ hash) rest k v h = (
    λ same. All-middle (λ p. p.0 ≢ j) hash rest (k, v) h.0 (sym same),
    NodupKeys-fresh hash rest k v h.1,
  )
