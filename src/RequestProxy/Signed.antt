-- ===== src/RequestProxy/Signed.antt =====
-- Writing `oauth_signature` into a request changes neither its base string nor its other parameters.
use oauth.Prelude.{
  ◌≡◌, ap, true, false, not, List, [], ◌∷◌, ◌++◌, Option, Bytes, arith, bytes_eq, bytes_eq_sound,
  bytes_eq_refl,
}
use oauth.Params.{str, store, includes}
use oauth.Params.Laws.{lookup-store, select-store}
use oauth.Uri.{Uri}
use oauth.Outcome.{ok, ◌>>=◌}
use oauth.RequestProxy.{
  Proxy, signature_key, first_value, oauth_signature, signature_and_unsigned_parameters,
  parameters_for_signature, normalize_or_raise, normalized_parameters, base_text,
  class_normalized_uri, signature_base_string,
}

-- The proxy after `parameters["oauth_signature"] = text; @signed = true`.
abbrev pub with_signature : Bytes → Proxy → Proxy
with_signature text p = record p {
  parameters = store signature_key (str text) p.parameters;
  signed = true;
}

pub includes_last : (names : List Bytes) (key : Bytes) → includes (names ++ key ∷ []) key ≡ true
unfolding includes
includes_last [] key = rw (bytes_eq_refl key)
includes_last (x ∷ names) key = ground (arith, includes_last names key)

never_signed :
    (names : List Bytes) (j : Bytes)
    → bytes_eq j signature_key ≡ true
    → not (includes (names ++ signature_key ∷ []) j) ≡ false
never_signed names j same =
    rw (bytes_eq_sound j signature_key same, includes_last names signature_key)

parameters_for_signature-signed :
    (p : Proxy) (text : Bytes)
    → parameters_for_signature (with_signature text p) ≡ parameters_for_signature p
unfolding parameters_for_signature signature_and_unsigned_parameters
parameters_for_signature-signed p text =
    select-store (λ k v. not (includes (p.unsigned_parameters ++ signature_key ∷ []) k))
      signature_key (str text) p.parameters (λ j w same. never_signed p.unsigned_parameters j same)

normalized_parameters-signed :
    (p : Proxy) (text : Bytes)
    → normalized_parameters (with_signature text p) ≡ normalized_parameters p
unfolding normalized_parameters
normalized_parameters-signed p text = ap normalize_or_raise (parameters_for_signature-signed p text)

-- Writing a signature into a request leaves its signature base string as it is.
pub signature_base_string-signed :
    (parse_uri : Bytes → Option Uri) (p : Proxy) (text : Bytes)
    → signature_base_string parse_uri (with_signature text p) ≡ signature_base_string parse_uri p
unfolding signature_base_string class_normalized_uri
signature_base_string-signed parse_uri p text =
    ap
      (λ m. class_normalized_uri parse_uri p >>= λ uri.
        m >>= λ params. ok (base_text p.method uri params))
      (normalized_parameters-signed p text)

pub first_value-signed :
    (name : Bytes) (p : Proxy) (text : Bytes)
    → bytes_eq signature_key name ≡ false
    → first_value name (with_signature text p).parameters ≡ first_value name p.parameters
unfolding first_value
first_value-signed name p text other =
    rw (lookup-store name signature_key (str text) p.parameters, other)

pub oauth_signature-signed :
    (p : Proxy) (text : Bytes) → oauth_signature (with_signature text p) ≡ str text
unfolding oauth_signature
oauth_signature-signed p text =
    rw (
      lookup-store signature_key signature_key (str text) p.parameters,
      bytes_eq_refl signature_key,
    )
