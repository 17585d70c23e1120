-- ===== src/Docs/Search/Names.antt =====
-- What a search keeps of the items of the cache: their names, in their order.
use oauth.Prelude.{◌≡◌, refl, ap, ◌∙◌, suc, List, [], ◌∷◌, ◌++◌, length, true, Option, none, some}
use oauth.Docs.Search.{
  Entry, RowClass, r1, r2, mark_row, remove_class, add_class, remove_last, next_class,
}

-- What a search leaves as it is.
abbrev pub Same : Entry → Entry → Type 0
Same e e' = (e'.name ≡ e.name) × (e'.full_name ≡ e.full_name)

-- Both lists have the same names.
abbrev pub SameNames : List Entry → List Entry → Type 0
SameNames [] [] = Unit
SameNames [] (e ∷ es) = ⊥
SameNames (e ∷ es) [] = ⊥
SameNames (e ∷ es) (e' ∷ es') = Same e e' × SameNames es es'

pub SameNames-refl : (es : List Entry) → SameNames es es
SameNames-refl [] = tt
SameNames-refl (e ∷ es) = ((refl, refl), SameNames-refl es)

pub SameNames-append :
    (xs ys zs ws : List Entry) → SameNames xs ys → SameNames zs ws → SameNames (xs ++ zs) (ys ++ ws)
SameNames-append [] [] zs ws h k = k
SameNames-append [] (y ∷ ys) zs ws h k = elim h [ ]
SameNames-append (x ∷ xs) [] zs ws h k = elim h [ ]
SameNames-append (x ∷ xs) (y ∷ ys) zs ws (h, hs) k = (h, SameNames-append xs ys zs ws hs k)

pub SameNames-trans : (xs ys zs : List Entry) → SameNames xs ys → SameNames ys zs → SameNames xs zs
SameNames-trans [] [] [] h k = tt
SameNames-trans [] [] (z ∷ zs) h k = elim k [ ]
SameNames-trans [] (y ∷ ys) zs h k = elim h [ ]
SameNames-trans (x ∷ xs) [] zs h k = elim h [ ]
SameNames-trans (x ∷ xs) (y ∷ ys) [] h k = elim k [ ]
SameNames-trans (x ∷ xs) (y ∷ ys) (z ∷ zs) (h, hs) (k, ks) =
    ((k.0 ∙ h.0, k.1 ∙ h.1), SameNames-trans xs ys zs hs ks)

pub SameNames-length : (xs ys : List Entry) → SameNames xs ys → length ys ≡ length xs
SameNames-length [] [] h = refl
SameNames-length [] (y ∷ ys) h = elim h [ ]
SameNames-length (x ∷ xs) [] h = elim h [ ]
SameNames-length (x ∷ xs) (y ∷ ys) (h, hs) = ap suc (SameNames-length xs ys hs)

pub mark_row-kept :
    (last : Option RowClass) (e : Entry)
    → Same e (mark_row last e).0 × ((mark_row last e).0.found ≡ true)
unfolding mark_row remove_class add_class remove_last next_class
mark_row-kept none e = ((refl, refl), refl)
mark_row-kept (some r1) e = ((refl, refl), refl)
mark_row-kept (some r2) e = ((refl, refl), refl)
