-- ===== src/Helper/Normalize/Unordered.antt =====
-- The normalised text as a function of a hash without its order.
use mathlib.Core.Logic.{∥∥₁_elim}
use mathlib.Core.HLevel.{Π_prop}
use mathlib.Core.List.{Perm, Permᴰ, cons-ne-nil}
use mathlib.Core.List.Permᴰ
use mathlib.Core.Option
use mathlib.Core.Option.{some-injective}
use mathlib.Core.Path.{subst}
use mathlib.Core.Quot
use mathlib.Core.Quot.{Quot, Quot-set}
use oauth.Prelude.{◌≡◌, ◌≢◌, refl, sym, ap, ◌∙◌, [], ◌∷◌, All, Option, none, Bytes}
use oauth.Params.{str, Params, NodupKeys}
use oauth.Params.Perms.{sort-Permᴰ}
use oauth.Prelude.Split.{split_by, join}
use oauth.Helper.Normalize.{key_le, sort_params, entry_texts, normalize}
use oauth.Helper.Normalize.Order.{normalize-Perm}
use oauth.Helper.Normalize.RoundTrip.{
  as_values, BytePairs, read_pair, read_pairs, read_form, read_form-normalize,
}

-- A hash of strings, with its keys in the order in which they were written.
abbrev pub Written : Type 0
Written = (ps : Params Bytes) × NodupKeys ps × BytePairs ps

-- Two writings of the same parameters.
abbrev pub SameParams : Written → Written → Type 0
SameParams p q = Perm p.0 q.0

-- The hash without its order.
abbrev pub Unordered : Type 0
Unordered = Quot SameParams

pub as_values-Permᴰ : {ps qs : Params Bytes} → Permᴰ ps qs → Permᴰ (as_values ps) (as_values qs)
as_values-Permᴰ Permᴰ.nil = Permᴰ.nil
as_values-Permᴰ (Permᴰ.cons e p) = Permᴰ.cons (ap (λ x. (x.0, str x.1)) e) (as_values-Permᴰ p)
as_values-Permᴰ (Permᴰ.swap e f) =
    Permᴰ.swap (ap (λ x. (x.0, str x.1)) e) (ap (λ x. (x.0, str x.1)) f)
as_values-Permᴰ (Permᴰ.trans p q) = Permᴰ.trans (as_values-Permᴰ p) (as_values-Permᴰ q)

as_values-apart :
    (k : Bytes) (ps : Params Bytes) → All (λ p. p.0 ≢ k) ps → All (λ p. p.0 ≢ k) (as_values ps)
as_values-apart k [] h = tt
as_values-apart k (p ∷ ps) h = (h.0, as_values-apart k ps h.1)

pub as_values-NodupKeys : (ps : Params Bytes) → NodupKeys ps → NodupKeys (as_values ps)
as_values-NodupKeys [] h = tt
as_values-NodupKeys (p ∷ ps) h = (as_values-apart p.0 ps h.0, as_values-NodupKeys ps h.1)

pub text_set : IsSet (Option Bytes)
text_set = hlevel

pub normalize_respects :
    (p q : Written) → SameParams p q → normalize (as_values p.0) ≡ normalize (as_values q.0)
normalize_respects p q h = ∥∥₁_elim h (text_set _ _) (λ perm.
    normalize-Perm (as_values p.0) (as_values q.0) ∣ as_values-Permᴰ perm ∣₁
      (as_values-NodupKeys p.0 p.1))

-- `normalize` of a hash of strings, whose order is forgotten.
unfoldable pub normalize_unordered : Unordered → Option Bytes
normalize_unordered = Quot.lift text_set (λ p. normalize (as_values p.0)) normalize_respects

-- The empty text is not a form.
normalize_empty : Option.bind (normalize (as_values [])) read_form ≡ none
unfolding normalize sort_params entry_texts join Option.bind read_form split_by read_pairs read_pair
normalize_empty = refl

-- A hash that is not empty has a form.
empty-apart :
    (p : Bytes × Bytes) (ps : Params Bytes)
    → BytePairs (p ∷ ps)
    → normalize (as_values []) ≢ normalize (as_values (p ∷ ps))
empty-apart p ps h e =
    let read = read_form-normalize (p ∷ ps) (cons-ne-nil p ps) h in
    let unread = sym normalize_empty ∙ ap (λ o. Option.bind o read_form) e ∙ read in cc

sorted_eq :
    (ps qs : Params Bytes)
    → BytePairs ps
    → BytePairs qs
    → normalize (as_values ps) ≡ normalize (as_values qs)
    → sort_params ps ≡ sort_params qs
sorted_eq [] [] hp hq e = refl
sorted_eq [] (q ∷ qs) hp hq e = absurd (empty-apart q qs hq e)
sorted_eq (p ∷ ps) [] hp hq e = absurd (empty-apart p ps hp (sym e))
sorted_eq (p ∷ ps) (q ∷ qs) hp hq e = some-injective _ _ (
    sym (read_form-normalize (p ∷ ps) (cons-ne-nil p ps) hp)
    ∙ ap (λ o. Option.bind o read_form) e
    ∙ read_form-normalize (q ∷ qs) (cons-ne-nil q qs) hq)

sorted-Permᴰ : (ps qs : Params Bytes) → sort_params ps ≡ sort_params qs → Permᴰ ps qs
unfolding sort_params
sorted-Permᴰ ps qs e =
    Permᴰ.trans (Permᴰ.symm (sort-Permᴰ key_le ps))
      (subst (λ s. Permᴰ s qs) (sym e) (sort-Permᴰ key_le qs))

-- Two hashes of strings have the same normalised text only if they are the same hash, up to the
-- order of their keys: the text loses nothing but the order.
pub normalize_unordered_inj :
    (g h : Unordered) → normalize_unordered g ≡ normalize_unordered h → g ≡ h
unfolding normalize_unordered
normalize_unordered_inj =
    Quot.ind (λ g. Π_prop λ h. Π_prop λ e. Quot-set g h)
      (λ p.
        Quot.ind (λ h. Π_prop λ e. Quot-set (Quot.mk p) h)
          (λ q e. Quot.sound ∣ sorted-Permᴰ p.0 q.0 (sorted_eq p.0 q.0 p.2 q.2 e) ∣₁))
