-- ===== src/RequestProxy/SignedUri/Reordered.antt =====
-- A request whose parameters arrive in another order.
use mathlib.Core.List.{Permᴰ}
use oauth.Prelude.{◌≡◌, sym, ap, ◌∙◌, [], ◌∷◌, ◌++◌, Bool, not, Option, Bytes, codes}
use oauth.Params.{Value, Params, NodupKeys, includes}
use oauth.Params.Perms.{lookup-Permᴰ, select-Permᴰ}
use oauth.Params.Appended.{NodupKeys-select}
use oauth.Uri.{Uri}
use oauth.Outcome.{◌>>=◌}
use oauth.Helper.Normalize.{normalize}
use oauth.Helper.Normalize.Order.{normalize-Perm}
use oauth.RequestProxy.{
  Proxy, signature_key, first_value, first_of, value_or_nil, or_empty, oauth_signature,
  parameters_for_signature, signature_and_unsigned_parameters, signature_base_string,
}
use oauth.Client.Proxies.{signature_base_string-same}
use oauth.Signature.{
  Method, no_block, Options, method_of, method_named, new_signer, signature, check, verify,
}
use oauth.Signature.Accepts.{signature-request, request-new_signer, new_signer-request}

-- The request with its parameters in another order.
abbrev pub reordered : Params Value → Proxy → Proxy
reordered params p = record p { parameters = params }

module _ (p : Proxy) (params : Params Value) (perm : Permᴰ params p.parameters)
    (nodup : NodupKeys params) where
  first_value-reordered : (key : Bytes) → first_value key params ≡ first_value key p.parameters
  unfolding first_value
  first_value-reordered key =
      ap (λ found. value_or_nil (first_of (value_or_nil found))) (lookup-Permᴰ key perm nodup)

  normalize-reordered :
      normalize (parameters_for_signature (reordered params p))
      ≡ normalize (parameters_for_signature p)
  unfolding parameters_for_signature signature_and_unsigned_parameters
  normalize-reordered =
      let keep : Bytes → Value → Bool =
        λ k v. not (includes (p.unsigned_parameters ++ signature_key ∷ []) k) in
      normalize-Perm _ _ ∣ select-Permᴰ keep perm ∣₁ (NodupKeys-select keep params nodup)

  module _ (parse_uri : Bytes → Option Uri) (hmac : Method → Bytes → Bytes → Bytes) where
    signature-reordered :
        (m : Method) (o : Options)
        → signature parse_uri hmac m (new_signer (reordered params p) o no_block)
          ≡ signature parse_uri hmac m (new_signer p o no_block)
    signature-reordered m o =
        ap (signature parse_uri hmac m) (new_signer-request p (reordered params p) o)
        ∙ signature-request parse_uri hmac m (new_signer p o no_block) (reordered params p) (
            signature_base_string-same parse_uri p params normalize-reordered
            ∙ ap (signature_base_string parse_uri) (sym (request-new_signer p o no_block)))

    -- Whether a request verifies does not depend on the order of its parameters.
    pub verify-reordered :
        (o : Options) (fallback : Option Bytes)
        → verify parse_uri hmac (reordered params p) o no_block fallback
          ≡ verify parse_uri hmac p o no_block fallback
    unfolding verify method_of oauth_signature
    verify-reordered o fallback = λ i.
        method_named (first_value-reordered (codes "oauth_signature_method") i) fallback >>= λ m.
        signature-reordered m o i >>= λ ours.
        check parse_uri hmac m ours (or_empty (first_value-reordered signature_key i))
