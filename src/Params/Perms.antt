-- ===== src/Params/Perms.antt =====
-- Hashes that differ in the order of their keys alone.
use mathlib.Core.List.{Permᴰ}
use mathlib.Core.List.Permᴰ
use mathlib.Core.Path.{subst, subst₂}
use oauth.Prelude.{
  List, ◌≡◌, refl, sym, ◌∙◌, ap, ◌≢◌, ◌∷◌, [], Bytes, All, Bool, Bool-cases, inl, inr, map, some,
  bytes_eq, bytes_eq_iff, if◌then◌else◌, arith,
}
use oauth.Prelude.Order.{insert, insertion_sort}
use oauth.Params.{Params, NodupKeys, lookup, select}

pub All-Permᴰ {ℓ κ} :
    {A : Type ℓ} (P : A → Type κ) {xs ys : List A} → Permᴰ xs ys → All P xs → All P ys
All-Permᴰ P Permᴰ.nil h = tt
All-Permᴰ P (Permᴰ.cons e p) h = (subst P e h.0, All-Permᴰ P p h.1)
All-Permᴰ P (Permᴰ.swap e f) h = (subst P f h.1.0, (subst P e h.0, h.1.1))
All-Permᴰ P (Permᴰ.trans p q) h = All-Permᴰ P q (All-Permᴰ P p h)

module _ {ℓ} {A : Type ℓ} (le : A → A → Bool) where
  insert-Permᴰ : (x : A) (xs : List A) → Permᴰ (insert le x xs) (x ∷ xs)
  unfolding insert
  insert-Permᴰ x [] = Permᴰ.refl (x ∷ [])
  insert-Permᴰ x (y ∷ ys) = elim (Bool-cases (le x y)) [
    | inl before ↦ rw before (Permᴰ.refl (x ∷ y ∷ ys))
    | inr behind ↦
        rw behind (Permᴰ.trans (Permᴰ.cons refl (insert-Permᴰ x ys)) (Permᴰ.swap refl refl))
  ]

  pub sort-Permᴰ : (xs : List A) → Permᴰ (insertion_sort le xs) xs
  unfolding insertion_sort
  sort-Permᴰ [] = Permᴰ.nil
  sort-Permᴰ (x ∷ xs) =
      Permᴰ.trans (insert-Permᴰ x (insertion_sort le xs)) (Permᴰ.cons refl (sort-Permᴰ xs))

pub map-Permᴰ {ℓ κ} :
    {A : Type ℓ} {B : Type κ} (f : A → B) {xs ys : List A}
    → Permᴰ xs ys
    → Permᴰ (map f xs) (map f ys)
map-Permᴰ f Permᴰ.nil = Permᴰ.nil
map-Permᴰ f (Permᴰ.cons e p) = Permᴰ.cons (ap f e) (map-Permᴰ f p)
map-Permᴰ f (Permᴰ.swap e e') = Permᴰ.swap (ap f e) (ap f e')
map-Permᴰ f (Permᴰ.trans p q) = Permᴰ.trans (map-Permᴰ f p) (map-Permᴰ f q)

module _ {ℓ} {V : Type ℓ} where
  pub NodupKeys-Permᴰ : {ps qs : Params V} → Permᴰ ps qs → NodupKeys ps → NodupKeys qs
  NodupKeys-Permᴰ Permᴰ.nil h = tt
  NodupKeys-Permᴰ (Permᴰ.cons {l₂ = l} e p) h =
      subst (λ x. NodupKeys (x ∷ l)) e (All-Permᴰ _ p h.0, NodupKeys-Permᴰ p h.1)
  NodupKeys-Permᴰ (Permᴰ.swap {a = x} {b = y} {l = l} e f) h =
      subst₂ (λ s t. NodupKeys (s ∷ t ∷ l)) f e ((λ same. h.0.0 (sym same), h.1.0), (h.0.1, h.1.1))
  NodupKeys-Permᴰ (Permᴰ.trans p q) h = NodupKeys-Permᴰ q (NodupKeys-Permᴰ p h)

  select-swap :
      (keep : Bytes → V → Bool) (p q : Bytes × V) (l : Params V)
      → Permᴰ (select keep (p ∷ q ∷ l)) (select keep (q ∷ p ∷ l))
  unfolding select
  select-swap keep p q l = elim (Bool-cases (keep p.0 p.1)) [
    | inl kept ↦ elim (Bool-cases (keep q.0 q.1)) [
      | inl also ↦ rw (kept, also) (Permᴰ.swap refl refl)
      | inr not_q ↦ rw (kept, not_q) (Permᴰ.refl (p ∷ select keep l))
    ]
    | inr dropped ↦ elim (Bool-cases (keep q.0 q.1)) [
      | inl q_only ↦ rw (dropped, q_only) (Permᴰ.refl (q ∷ select keep l))
      | inr neither ↦ rw (dropped, neither) (Permᴰ.refl (select keep l))
    ]
  ]

  -- A selection of one of them is one of the selection.
  pub select-Permᴰ :
      (keep : Bytes → V → Bool) {ps qs : Params V}
      → Permᴰ ps qs
      → Permᴰ (select keep ps) (select keep qs)
  unfolding select
  select-Permᴰ keep Permᴰ.nil = Permᴰ.nil
  select-Permᴰ keep (Permᴰ.cons {a = p} {b = q} {l₁ = ps} {l₂ = qs} e perm) =
      subst (λ r. Permᴰ (select keep (p ∷ ps)) (select keep (r ∷ qs))) e
        (elim (Bool-cases (keep p.0 p.1)) [
          | inl kept ↦ rw kept (Permᴰ.cons refl (select-Permᴰ keep perm))
          | inr dropped ↦ rw dropped (select-Permᴰ keep perm)
        ])
  select-Permᴰ keep (Permᴰ.swap {a = p} {b = q} {l = l} e f) =
      subst₂ (λ s t. Permᴰ (select keep (p ∷ q ∷ l)) (select keep (s ∷ t ∷ l))) f e
        (select-swap keep p q l)
  select-Permᴰ keep (Permᴰ.trans p q) = Permᴰ.trans (select-Permᴰ keep p) (select-Permᴰ keep q)

  lookup-swap :
      (key : Bytes) (p q : Bytes × V) (l : Params V)
      → q.0 ≢ p.0
      → lookup key (p ∷ q ∷ l) ≡ lookup key (q ∷ p ∷ l)
  unfolding lookup
  lookup-swap key p q l differ = ground (arith, bytes_eq_iff p.0 key, bytes_eq_iff q.0 key)

  -- The value of a key does not depend on the order.
  pub lookup-Permᴰ :
      (key : Bytes) {ps qs : Params V} → Permᴰ ps qs → NodupKeys ps → lookup key ps ≡ lookup key qs
  unfolding lookup
  lookup-Permᴰ key Permᴰ.nil h = refl
  lookup-Permᴰ key (Permᴰ.cons {a = p} {b = q} {l₁ = ps} {l₂ = qs} e perm) h =
      subst (λ r. lookup key (p ∷ ps) ≡ lookup key (r ∷ qs)) e
        (ap (λ rest. if bytes_eq p.0 key then some p.1 else rest) (lookup-Permᴰ key perm h.1))
  lookup-Permᴰ key (Permᴰ.swap {a = p} {b = q} {l = l} e f) h =
      subst₂ (λ s t. lookup key (p ∷ q ∷ l) ≡ lookup key (s ∷ t ∷ l)) f e
        (lookup-swap key p q l h.0.0)
  lookup-Permᴰ key (Permᴰ.trans p q) h =
      lookup-Permᴰ key p h ∙ lookup-Permᴰ key q (NodupKeys-Permᴰ p h)
