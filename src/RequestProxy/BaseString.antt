-- ===== src/RequestProxy/BaseString.antt =====
-- The signature base string determines what it was made of.
use oauth.Prelude.{◌≡◌, refl, ◌∷◌, ◌++◌, Bytes, IsBytes, Lacks}
use oauth.Prelude.Split.{append_sep_inj}
use oauth.Helper.Escape.{escape}
use oauth.Helper.Escape.RoundTrip.{escape_inj, escape-IsSafe, IsSafe-Lacks}
use oauth.RequestProxy.{base_text}

escape-amp : (s : Bytes) → IsBytes s → Lacks b'&' (escape s)
escape-amp s h = (IsSafe-Lacks (escape s) (escape-IsSafe s h)).0

base_text-parts :
    (m u p : Bytes) → base_text m u p ≡ escape m ++ b'&' ∷ (escape u ++ b'&' ∷ escape p)
unfolding base_text
base_text-parts m u p = refl

-- If method, address and parameter text are bytes, two requests have the same base text only if
-- all three agree.
pub base_text_inj :
    (m u p m' u' p' : Bytes)
    → IsBytes m × IsBytes u × IsBytes p
    → IsBytes m' × IsBytes u' × IsBytes p'
    → base_text m u p ≡ base_text m' u' p'
    → (m ≡ m') × (u ≡ u') × (p ≡ p')
base_text_inj m u p m' u' p' (hm, hu, hp) (hm', hu', hp') e =
    let same : escape m ++ b'&' ∷ (escape u ++ b'&' ∷ escape p)
        ≡ escape m' ++ b'&' ∷ (escape u' ++ b'&' ∷ escape p') =
      cc (base_text-parts m u p, base_text-parts m' u' p') in
    let (same_m, tails) =
      append_sep_inj b'&' (escape m) (escape m') (escape-amp m hm) (escape-amp m' hm') same in
    let (same_u, same_p) =
      append_sep_inj b'&' (escape u) (escape u') (escape-amp u hu) (escape-amp u' hu') tails in
    (escape_inj m m' hm hm' same_m, escape_inj u u' hu hu' same_u, escape_inj p p' hp hp' same_p)
