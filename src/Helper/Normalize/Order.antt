-- ===== src/Helper/Normalize/Order.antt =====
-- The normalised text does not depend on the order in which parameters were written.
use mathlib.Core.Logic.{∥∥₁_elim}
use mathlib.Core.List.{Perm, Permᴰ}
use mathlib.Core.Path.{ap₂}
use mathlib.Core.Option
use mathlib.Core.Option.{Option}
use oauth.Prelude.{◌≡◌, refl, ◌∙◌, ap, ◌≢◌, ◌∷◌, [], Bytes}
use oauth.Prelude.Order.{bytes_le_total, bytes_le_trans, bytes_le_antisymm, insert_comm, insert}
use oauth.Params.{Value, Params, NodupKeys}
use oauth.Params.Perms.{NodupKeys-Permᴰ}
use oauth.Helper.Normalize.{key_le, sort_params, normalize, entry_texts}
use oauth.Prelude.Split.{join}

module _ {ℓ} {V : Type ℓ} where
  sort_params-swap :
      (x y : Bytes × V) (s : Params V)
      → y.0 ≢ x.0
      → insert key_le x (insert key_le y s) ≡ insert key_le y (insert key_le x s)
  sort_params-swap x y s h =
      insert_comm key_le (λ a b. bytes_le_total a.0 b.0) (λ a b c. bytes_le_trans a.0 b.0 c.0) x y
        (λ p q. absurd (h (bytes_le_antisymm y.0 x.0 q p))) s

  sort_params-Permᴰ :
      {ps qs : Params V} → Permᴰ ps qs → NodupKeys ps → sort_params ps ≡ sort_params qs
  unfolding sort_params
  sort_params-Permᴰ Permᴰ.nil h = refl
  sort_params-Permᴰ (Permᴰ.cons e p) h = ap₂ (insert key_le) e (sort_params-Permᴰ p h.1)
  sort_params-Permᴰ (Permᴰ.swap {a = x} {b = y} {l = l} e f) h =
      sort_params-swap x y (sort_params l) h.0.0
      ∙ ap₂ (λ s t. insert key_le s (insert key_le t (sort_params l))) f e
  sort_params-Permᴰ (Permᴰ.trans p q) h =
      sort_params-Permᴰ p h ∙ sort_params-Permᴰ q (NodupKeys-Permᴰ p h)

text_set : IsSet (Option Bytes)
text_set = hlevel

-- Two writings of one hash, which differ in the order of the keys alone, have the same text.
pub normalize-Perm :
    (ps qs : Params Value) → Perm ps qs → NodupKeys ps → normalize ps ≡ normalize qs
unfolding normalize
normalize-Perm ps qs p h =
    ∥∥₁_elim p (text_set _ _)
      (λ q. ap (λ s. Option.map (join (b'&' ∷ [])) (entry_texts s)) (sort_params-Permᴰ q h))
