-- ===== src/Client/Keys.antt =====
-- The keys of the OAuth parameters.
use oauth.Prelude.{
  ℕ, Bool-cases, inl, inr, ◌≡◌, ◌≢◌, refl, [], ◌∷◌, All, Bool, true, false, not, ◌&&◌, some, Bytes,
  codes, bytes_eq,
}
use oauth.Prelude.Lines.{start_with}
use oauth.Params.{NodupKeys, lookup}
use oauth.Params.Appended.{All-select, NodupKeys-select, lookup-select}
use oauth.Params.Mapped.{
  all_keys, all_keys_sound, nodup_keys, nodup_keys_sound, and_split, All-differ,
}
use oauth.Helper.Escape.{is_reserved}
use oauth.Helper.Header.Parts.{IsKey}
use oauth.RequestProxy.{signature_key}
use oauth.RequestProxy.Rack.{is_oauth_key}
use oauth.Client.{
  HelperOptions, given_or, is_filled, is_kept, all_oauth_parameters, oauth_parameters,
}

-- All bytes are unreserved.
unfoldable pub is_plain : Bytes → Bool
is_plain [] = true
is_plain (c ∷ k) = not (is_reserved c) && is_plain k

plain_byte-not : (c : ℕ) → not (is_reserved c) ≡ true → is_reserved c ≡ false
plain_byte-not c h = elim (Bool-cases (is_reserved c)) [ inl reserved ↦ cc | inr plain ↦ plain ]

pub is_plain-IsKey : (k : Bytes) → is_plain k ≡ true → IsKey k
unfolding is_plain
is_plain-IsKey [] h = tt
is_plain-IsKey (c ∷ k) h =
    let (first, rest) = and_split (not (is_reserved c)) (is_plain k) h in
    (plain_byte-not c first, is_plain-IsKey k rest)

abbrev pub signature_method_key : Bytes
signature_method_key = codes "oauth_signature_method"

module _ (generate_key generate_timestamp : Bytes) (o : HelperOptions) where
  all-nodup : NodupKeys (all_oauth_parameters generate_key generate_timestamp o)
  unfolding all_oauth_parameters nodup_keys all_keys bytes_eq
  all-nodup = nodup_keys_sound (all_oauth_parameters generate_key generate_timestamp o) refl

  all-oauth :
      All (λ p. is_oauth_key p.0 ≡ true) (all_oauth_parameters generate_key generate_timestamp o)
  unfolding all_oauth_parameters all_keys is_oauth_key start_with
  all-oauth =
      all_keys_sound is_oauth_key (all_oauth_parameters generate_key generate_timestamp o) refl

  all-plain :
      All (λ p. is_plain p.0 ≡ true) (all_oauth_parameters generate_key generate_timestamp o)
  unfolding all_oauth_parameters all_keys is_plain is_reserved
  all-plain = all_keys_sound is_plain (all_oauth_parameters generate_key generate_timestamp o) refl

  all-unsigned :
      All (λ p. p.0 ≢ signature_key) (all_oauth_parameters generate_key generate_timestamp o)
  unfolding all_oauth_parameters all_keys bytes_eq
  all-unsigned = All-differ signature_key (all_oauth_parameters generate_key generate_timestamp o) (
      all_keys_sound (λ k. not (bytes_eq k signature_key))
        (all_oauth_parameters generate_key generate_timestamp o) refl)

  pub oauth_parameters-NodupKeys : NodupKeys (oauth_parameters generate_key generate_timestamp o)
  unfolding oauth_parameters
  oauth_parameters-NodupKeys =
      NodupKeys-select (is_kept o.allow_empty_params)
        (all_oauth_parameters generate_key generate_timestamp o) all-nodup

  pub oauth_parameters-oauth :
      All (λ p. is_oauth_key p.0 ≡ true) (oauth_parameters generate_key generate_timestamp o)
  unfolding oauth_parameters
  oauth_parameters-oauth =
      All-select (is_kept o.allow_empty_params) (λ p. is_oauth_key p.0 ≡ true)
        (all_oauth_parameters generate_key generate_timestamp o) all-oauth

  pub oauth_parameters-plain :
      All (λ p. is_plain p.0 ≡ true) (oauth_parameters generate_key generate_timestamp o)
  unfolding oauth_parameters
  oauth_parameters-plain =
      All-select (is_kept o.allow_empty_params) (λ p. is_plain p.0 ≡ true)
        (all_oauth_parameters generate_key generate_timestamp o) all-plain

  pub oauth_parameters-unsigned :
      All (λ p. p.0 ≢ signature_key) (oauth_parameters generate_key generate_timestamp o)
  unfolding oauth_parameters
  oauth_parameters-unsigned =
      All-select (is_kept o.allow_empty_params) (λ p. p.0 ≢ signature_key)
        (all_oauth_parameters generate_key generate_timestamp o) all-unsigned

  in_all :
      lookup signature_method_key (all_oauth_parameters generate_key generate_timestamp o)
      ≡ some (some (given_or o.signature_method (codes "HMAC-SHA1")))
  unfolding all_oauth_parameters lookup bytes_eq
  in_all = refl

  -- The signature method is among them, if it is not the empty text.
  pub lookup-signature_method :
      is_filled (some (given_or o.signature_method (codes "HMAC-SHA1"))) ≡ true
      → lookup signature_method_key (oauth_parameters generate_key generate_timestamp o)
        ≡ some (some (given_or o.signature_method (codes "HMAC-SHA1")))
  unfolding oauth_parameters is_kept
  lookup-signature_method filled =
      lookup-select (is_kept o.allow_empty_params) signature_method_key
        (all_oauth_parameters generate_key generate_timestamp o)
        (some (given_or o.signature_method (codes "HMAC-SHA1"))) in_all (rw filled refl)
