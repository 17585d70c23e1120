-- ===== src/Params/Mapped.antt =====
-- Hashes whose values are changed, and tests of their keys.
use mathlib.Core.Option.{some-injective}
use oauth.Prelude.{
  ◌≡◌, ◌≢◌, refl, All, Bool, true, false, not, ◌&&◌, Bool-cases, inl, inr, [], ◌∷◌, some, Bytes,
  bytes_eq, bytes_eq_iff, bytes_eq_sound, arith, map,
}
use oauth.Params.{Params, NodupKeys, lookup}

module _ {ℓ ℓ'} {V : Type ℓ} {W : Type ℓ'} (f : Bytes × V → Bytes × W)
    (same_key : (p : Bytes × V) → (f p).0 ≡ p.0) where
  pub All-map_keys {κ} :
      (P : Bytes → Type κ) (ps : Params V) → All (λ p. P p.0) ps → All (λ p. P p.0) (map f ps)
  All-map_keys P [] h = tt
  All-map_keys P (p ∷ ps) h = (rw (same_key p) h.0, All-map_keys P ps h.1)

  pub NodupKeys-map : (ps : Params V) → NodupKeys ps → NodupKeys (map f ps)
  NodupKeys-map [] h = tt
  NodupKeys-map (p ∷ ps) h =
      (rw (same_key p) (All-map_keys (λ k. k ≢ p.0) ps h.0), NodupKeys-map ps h.1)

  pub lookup-map :
      (key : Bytes) (ps : Params V) (v : V)
      → lookup key ps ≡ some v
      → lookup key (map f ps) ≡ some (f (key, v)).1
  unfolding lookup
  lookup-map key [] v h = cc
  lookup-map key ((k, w) ∷ ps) v h = elim (Bool-cases (bytes_eq k key)) [
    | inl same ↦
        let found : some w ≡ some v = rw same at h in
        let e = some-injective w v found in
        let e' = bytes_eq_sound k key same in
        rw (same_key (k, w), same) (λ i. some (f (e' i, e i)).1)
    | inr differ ↦ rw (same_key (k, w), differ) (lookup-map key ps v (rw differ at h))
  ]

pub and_split : (a b : Bool) → (a && b) ≡ true → (a ≡ true) × (b ≡ true)
and_split true b h = (refl, h)
and_split false b h = cc

module _ {ℓ} {V : Type ℓ} where
  unfoldable pub all_keys : (Bytes → Bool) → Params V → Bool
  all_keys test [] = true
  all_keys test ((k, v) ∷ ps) = test k && all_keys test ps

  pub all_keys_sound :
      (test : Bytes → Bool) (ps : Params V)
      → all_keys test ps ≡ true
      → All (λ p. test p.0 ≡ true) ps
  unfolding all_keys
  all_keys_sound test [] h = tt
  all_keys_sound test ((k, v) ∷ ps) h =
      let (first, rest) = and_split (test k) (all_keys test ps) h in
      (first, all_keys_sound test ps rest)

  unfoldable pub nodup_keys : Params V → Bool
  unfolding all_keys bytes_eq
  nodup_keys [] = true
  nodup_keys ((k, v) ∷ ps) = all_keys (λ j. not (bytes_eq j k)) ps && nodup_keys ps

  pub All-differ :
      (k : Bytes) (ps : Params V)
      → All (λ p. not (bytes_eq p.0 k) ≡ true) ps
      → All (λ p. p.0 ≢ k) ps
  All-differ k [] h = tt
  All-differ k (p ∷ ps) h = ((λ e. ground (arith, bytes_eq_iff p.0 k)), All-differ k ps h.1)

  pub nodup_keys_sound : (ps : Params V) → nodup_keys ps ≡ true → NodupKeys ps
  unfolding nodup_keys
  nodup_keys_sound [] h = tt
  nodup_keys_sound ((k, v) ∷ ps) h =
      let (first, rest) = and_split (all_keys (λ j. not (bytes_eq j k)) ps) (nodup_keys ps) h in
      (
        All-differ k ps (all_keys_sound (λ j. not (bytes_eq j k)) ps first),
        nodup_keys_sound ps rest,
      )
