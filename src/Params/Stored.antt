-- ===== src/Params/Stored.antt =====
-- Hashes into which a key is written.
use mathlib.Core.List.{cons-ne-nil}
use mathlib.Core.Path.{subst}
use oauth.Prelude.{
  ◌≢◌, sym, All, inl, inr, Bool-cases, [], ◌∷◌, Bytes, bytes_eq, bytes_eq_iff, bytes_eq_sound,
  arith,
}
use oauth.Params.{Params, NodupKeys, store}

module _ {ℓ} {V : Type ℓ} (k : Bytes) (v : V) where
  -- What holds of the entry that is written, and of the others.
  pub All-store {κ} :
      (P : Bytes × V → Type κ) (ps : Params V) → P (k, v) → All P ps → All P (store k v ps)
  unfolding store
  All-store P [] h hs = (h, tt)
  All-store P ((j, w) ∷ ps) h hs = elim (Bool-cases (bytes_eq j k)) [
    | inl same ↦ rw same (subst (λ key. P (key, v)) (sym (bytes_eq_sound j k same)) h, hs.1)
    | inr differ ↦ rw differ (hs.0, All-store P ps h hs.1)
  ]

  pub store-NodupKeys : (ps : Params V) → NodupKeys ps → NodupKeys (store k v ps)
  unfolding store
  store-NodupKeys [] h = (tt, tt)
  store-NodupKeys ((j, w) ∷ ps) h = elim (Bool-cases (bytes_eq j k)) [
    | inl same ↦ rw same h
    | inr differ ↦
        let apart : k ≢ j = ground (arith, bytes_eq_iff j k) in
        rw differ (All-store (λ p. p.0 ≢ j) ps apart h.0, store-NodupKeys ps h.1)
  ]

  pub store-ne-nil : (ps : Params V) → store k v ps ≢ []
  unfolding store
  store-ne-nil [] = cons-ne-nil _ _
  store-ne-nil ((j, w) ∷ ps) = elim (Bool-cases (bytes_eq j k)) [
    | inl same ↦ rw same (cons-ne-nil _ _)
    | inr differ ↦ rw differ (cons-ne-nil _ _)
  ]
